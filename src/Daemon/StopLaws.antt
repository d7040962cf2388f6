-- ===== src/Daemon/StopLaws.antt =====
-- internal/daemon/service.go: what stopSessionUntil does to the process, and to the service.
use tui_box.Prelude.{ℕ, ◌≡◌, ◌⊎◌, refl, Bool, true, false, not, ◌||◌, List, [], ◌∷◌, ◌++◌, arith}
use tui_box.Daemon.State.{
  Err, process_stuck, process_failure, Effect, signalled, killed, reaped, Session, Service,
}
use tui_box.Daemon.Stop.{
  StopTrace, Wait, exited, context_done, grace_over, kill_and_wait, stop_waited, stop_session,
  err_if, err_of,
}

-- The two states differ in their logs at most.
pub record SameButLog (s s' : Service) : Type 0 where
  pub closed : s'.closed ≡ s.closed
  pub generation : s'.generation ≡ s.generation
  pub active : s'.active ≡ s.active
  pub status : s'.status ≡ s.status
  pub close_called : s'.close_called ≡ s.close_called
  pub close_err : s'.close_err ≡ s.close_err
  pub runner_closed : s'.runner_closed ≡ s.runner_closed
  pub installed : s'.installed ≡ s.installed

pub stop_session-SameButLog :
    (t : StopTrace) (c : Session) (s : Service) → SameButLog s (stop_session t c s).0
unfolding stop_session
stop_session-SameButLog t c s = ground arith

abbrev pub has_stuck : List Err → Bool
has_stuck [] = false
has_stuck (process_stuck ∷ es) = true
has_stuck (e ∷ es) = has_stuck es

has_stuck-append : (es : List Err) → has_stuck (es ++ process_stuck ∷ []) ≡ true
has_stuck-append [] = refl
has_stuck-append (process_stuck ∷ es) = refl
has_stuck-append (process_failure ∷ es) = has_stuck-append es
has_stuck-append (Err.unavailable ∷ es) = has_stuck-append es
has_stuck-append (Err.core_validation ∷ es) = has_stuck-append es
has_stuck-append (Err.rollback_failure ∷ es) = has_stuck-append es
has_stuck-append (Err.canceled ∷ es) = has_stuck-append es
has_stuck-append (Err.deadline_exceeded ∷ es) = has_stuck-append es

-- The first wait ended because the process did.
abbrev pub ends_in_time : Wait → Bool
ends_in_time (exited e) = true
ends_in_time (context_done e) = false
ends_in_time grace_over = false

-- The effect, if it is made.
abbrev pub effect_if : Bool → Effect → List Effect
effect_if true x = x ∷ []
effect_if false x = []

-- What a stop does, from what it observes: the process `p` is reaped exactly if it ends in time or
-- after SIGKILL, which it gets exactly if it does not end in time.
abbrev pub WasStopped : StopTrace → ℕ → Bool → List Err → List Effect → List Effect → Type 0
WasStopped t p was_reaped errs log log' =
    (was_reaped ≡ (ends_in_time t.first || t.exits_after_kill))
    × (log'
        ≡ effect_if was_reaped (reaped p)
          ++ (effect_if (not (ends_in_time t.first)) (killed p) ++ signalled p ∷ log))
    × ((was_reaped ≡ true) ⊎ (has_stuck errs ≡ true))

kill_stuck :
    (t : StopTrace) (errs : List Err) (c : Session) (s : Service)
    → (kill_and_wait t errs c s).1 ≡ false
    → has_stuck (kill_and_wait t errs c s).2 ≡ true
unfolding kill_and_wait
kill_stuck t errs c s h = ground (
  arith,
  has_stuck-append (errs ++ (err_if t.kill_failed process_failure ++ err_of t.context_at_end)),
)

waited_stuck :
    (w : Wait) (t : StopTrace) (errs : List Err) (c : Session) (s : Service)
    → (stop_waited w t errs c s).1 ≡ false
    → has_stuck (stop_waited w t errs c s).2 ≡ true
unfolding stop_waited
waited_stuck (exited e) t errs c s h = cc
waited_stuck (context_done e) t errs c s h = kill_stuck t (errs ++ e ∷ []) c s h
waited_stuck grace_over t errs c s h = kill_stuck t errs c s h

pub stop_stuck :
    (t : StopTrace) (c : Session) (s : Service)
    → (stop_session t c s).1 ≡ false
    → has_stuck (stop_session t c s).2 ≡ true
unfolding stop_session
stop_stuck t c s h = waited_stuck t.first t _ c _ h

stop_effects :
    (t : StopTrace) (c : Session) (s : Service)
    → WasStopped t c.process
        (stop_session t c s).1
        (stop_session t c s).2
        s.log
        (stop_session t c s).0.log
unfolding stop_session
stop_effects t c s = ground (arith, stop_stuck t c s)

-- A stop signals the session's process first and no other process. It kills it exactly if the
-- process did not end in the first wait, and says that it was reaped exactly if the process ended
-- then or after SIGKILL; if it was not reaped, the errors hold ErrProcessStuck. Nothing but the log
-- of the service changes.
pub stop_session_lem :
    (t : StopTrace) (c : Session) (s : Service)
    → WasStopped t c.process
        (stop_session t c s).1
        (stop_session t c s).2
        s.log
        (stop_session t c s).0.log
      × SameButLog s (stop_session t c s).0
stop_session_lem t c s = (stop_effects t c s, stop_session-SameButLog t c s)
