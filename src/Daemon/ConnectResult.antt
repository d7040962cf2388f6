-- ===== src/Daemon/ConnectResult.antt =====
-- internal/daemon/service.go: what a Connect that returns no error leaves running.
use tui_box.Prelude.{
  ℕ, ◌≡◌, ◌≢◌, refl, false, Option, none, some, List, [], ◌∷◌, if_both, option_both,
}
use tui_box.Domain.Types.{connected}
use tui_box.Daemon.State.{
  SessionStatus, Err, Session, Service, Request, Reply, status_of, note, opened, started,
}
use tui_box.Daemon.StopLaws.{stop_stuck}
use tui_box.Daemon.Stop.{stop_session}
use tui_box.Daemon.Install.{RollbackTrace, install_session}
use tui_box.Daemon.Connect.{
  ConnectTrace, connect, abandon_reaped, abandon, abandon_marked, replace_marked, started_stage,
  start_failed, start_stage, old_reaped, replace_old, checked_stage, prepared_stage, roll_back_to,
  close_old, start_result, prepare_result, is_stopping,
}

-- The session that Connect was asked for runs the process that was started.
abbrev pub Runs : Request → Option ℕ → Option Session → Type 0
Runs r process none = ⊥
Runs r process (some c) =
    (c.mode ≡ r.mode) × (c.route ≡ r.route) × (c.stopping ≡ false) × (process ≡ some c.process)

-- With no error the reply reports the requested session, which runs.
abbrev pub IsHonest : ConnectTrace → Request → Reply → Type 0
IsHonest t r x =
    x.2 ≡ []
    → Runs r t.start.process x.0.active
      × (x.0.status ≡ status_of connected r.mode r.route)
      × (x.1 ≡ status_of connected r.mode r.route)

abbrev Fails : Reply → Type 0
Fails x = x.2 ≢ []

abandon_marked-error :
    (t : ConnectTrace) (h : ℕ) (old : Option Session) (st : SessionStatus) (e : Err) (c : Session)
    (s : Service)
    → (abandon_marked t h old st e c s).2 ≢ []
unfolding abandon_marked abandon_reaped
abandon_marked-error t h none st e c s =
    if_both Fails (stop_session t.stop_new c s).1 (λ done p. cc)
      (λ stuck p. cc (stop_stuck t.stop_new c s stuck))
abandon_marked-error t h (some old) st e c s =
    if_both Fails (stop_session t.stop_new c s).1 (λ done p. cc)
      (λ stuck p. cc (stop_stuck t.stop_new c s stuck))

start_failed-error :
    (t : ConnectTrace) (r : Request) (h : ℕ) (old : Option Session) (st : SessionStatus)
    (s : Service)
    → (start_failed t r h old st s).2 ≢ []
unfolding start_failed roll_back_to
start_failed-error t r h none st s p = cc
start_failed-error t r h (some old) st s p = cc

roll_back_to-error :
    (t : RollbackTrace) (old : Session) (st : SessionStatus) (e : Err) (errs : List Err)
    (s : Service)
    → (roll_back_to t old st (e ∷ errs) s).2 ≢ []
unfolding roll_back_to
roll_back_to-error t old st e errs s p = cc

close_old-active : (old : Option Session) (s : Service) → (close_old old s).active ≡ s.active
close_old-active none s = refl
close_old-active (some old) s = refl

close_old-status : (old : Option Session) (s : Service) → (close_old old s).status ≡ s.status
close_old-status none s = refl
close_old-status (some old) s = refl

started_stage-IsHonest :
    (t : ConnectTrace) (r : Request) (h process : ℕ) (old : Option Session) (st : SessionStatus)
    (s : Service)
    → t.start.process ≡ some process
    → IsHonest t r (started_stage t r h process old st s)
unfolding started_stage abandon install_session
started_stage-IsHonest t r h process old st s e =
    option_both (IsHonest t r) t.started_context
      (λ p. (
        rw (close_old-active old) (refl, refl, refl, e),
        close_old-status old _,
        close_old-status old _,
      ))
      (λ e p. absurd (abandon_marked-error t h old st e _ _ p))

start_result-IsHonest :
    (o : Option ℕ) (t : ConnectTrace) (r : Request) (h : ℕ) (old : Option Session)
    (st : SessionStatus) (s : Service)
    → t.start.process ≡ o
    → IsHonest t r (start_result o t r h old st s)
unfolding start_result
start_result-IsHonest none t r h old st s e = λ p. absurd (start_failed-error t r h old st s p)
start_result-IsHonest (some process) t r h old st s e =
    if_both (IsHonest t r) t.start.failed
      (λ bad p. absurd (start_failed-error t r h old st (note (started h process) s) p))
      (λ good. started_stage-IsHonest t r h process old st (note (started h process) s) e)

start_stage-IsHonest :
    (t : ConnectTrace) (r : Request) (h : ℕ) (old : Option Session) (st : SessionStatus)
    (s : Service)
    → IsHonest t r (start_stage t r h old st s)
unfolding start_stage
start_stage-IsHonest t r h none st s = start_result-IsHonest t.start.process t r h none st _ refl
start_stage-IsHonest t r h (some old) st s =
    option_both (IsHonest t r) t.stopped_context
      (start_result-IsHonest t.start.process t r h (some old) st _ refl)
      (λ e p. absurd (roll_back_to-error t.rollback old st e [] _ p))

old_reaped-IsHonest :
    (t : ConnectTrace) (r : Request) (h : ℕ) (old : Session) (st : SessionStatus) (errs : List Err)
    (s : Service)
    → IsHonest t r (old_reaped t r h old st errs s)
unfolding old_reaped
old_reaped-IsHonest t r h old st [] s = start_stage-IsHonest t r h (some old) st s
old_reaped-IsHonest t r h old st (e ∷ errs) s =
    λ p. absurd (roll_back_to-error t.rollback old st e errs _ p)

replace_old-IsHonest :
    (t : ConnectTrace) (r : Request) (h : ℕ) (old : Session) (s : Service)
    → IsHonest t r (replace_old t r h old s)
unfolding replace_old replace_marked
replace_old-IsHonest t r h old s =
    if_both (IsHonest t r) (stop_session t.stop_old _ _).1
      (λ done. old_reaped-IsHonest t r h old s.status _ _)
      (λ stuck p. cc (stop_stuck t.stop_old _ _ stuck))

checked_stage-IsHonest :
    (o : Option Session) (t : ConnectTrace) (r : Request) (h : ℕ) (s : Service)
    → IsHonest t r (checked_stage o t r h s)
unfolding checked_stage
checked_stage-IsHonest none t r h s = start_stage-IsHonest t r h none s.status s
checked_stage-IsHonest (some old) t r h s =
    option_both (IsHonest t r) t.replace_context (replace_old-IsHonest t r h old s) (λ e p. cc)

prepare_result-IsHonest :
    (o : Option ℕ) (t : ConnectTrace) (r : Request) (s : Service)
    → IsHonest t r (prepare_result o t r s)
unfolding prepare_result prepared_stage
prepare_result-IsHonest none t r s = λ p. cc
prepare_result-IsHonest (some h) t r s =
    if_both (IsHonest t r) t.check_failed
      (λ bad. option_both (IsHonest t r) t.check_context (λ p. cc) (λ e p. cc))
      (λ good.
        option_both (IsHonest t r) t.checked_context
          (checked_stage-IsHonest s.active t r h (note (opened h) s)) (λ e p. cc))

-- Connect returns no error only if the requested session runs: the active session has the mode
-- and route of the request and the process that the runner started, it is not stopping, and the
-- service and the reply say Connected with that mode and route.
pub connect_honest :
    (t : ConnectTrace) (r : Request) (s : Service)
    → (connect t r s).2 ≡ []
    → Runs r t.start.process (connect t r s).0.active
      × ((connect t r s).0.status ≡ status_of connected r.mode r.route)
      × ((connect t r s).1 ≡ status_of connected r.mode r.route)
unfolding connect
connect_honest t r s =
    option_both (IsHonest t r) t.acquire_error
      (if_both (IsHonest t r) s.closed (λ c p. cc)
        (λ c.
          if_both (IsHonest t r) (is_stopping s.active) (λ i p. cc)
            (λ i. prepare_result-IsHonest t.prepared t r s)))
      (λ e p. cc)
