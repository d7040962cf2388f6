-- ===== src/Daemon/Steps.antt =====
-- internal/daemon/service.go: the invariant of the service, and the operations but Connect.
use tui_box.Prelude.{
  ℕ, ◌≡◌, ◌≤◌, refl, true, false, not, ◌&&◌, ◌||◌, Option, none, some, ◌==◌, if◌then◌else◌, arith,
  Bool-cases, inl, inr,
}
use tui_box.Domain.Types.{ConnectionStatus, connected, disconnecting, disconnected, failed}
use tui_box.Daemon.State.{
  SessionStatus, Err, Previous, Session, Service, status_of, new_service, note, set_active,
  run_cancel, closed, reaped,
}
use tui_box.Daemon.Stop.{StopTrace, stop_session}
use tui_box.Daemon.Install.{RollbackTrace, rollback}
use tui_box.Daemon.Operations.{
  CloseTrace, disconnect, exit, exit_active, exit_previous, fall_back, finish_exit, close,
}

-- With no session the service is at rest: disconnected, or failed.
abbrev pub IsResting : ConnectionStatus → Type 0
IsResting disconnected = Unit
IsResting failed = Unit
IsResting _ = ⊥

-- A session that falls back to another keeps the status to restore.
abbrev pub RestoresTo : Option Previous → SessionStatus → Type 0
RestoresTo none st = Unit
RestoresTo (some p) st = st ≡ status_of connected p.mode p.route

abbrev pub IsOlder : Option Previous → ℕ → Type 0
IsOlder none ident = Unit
IsOlder (some p) ident = p.ident ≤ ident

-- The status reports the active session: Connected, or Disconnecting while it stops; a session
-- that does not stop has nothing to fall back to.
abbrev pub Reports : Option Session → SessionStatus → Type 0
Reports none st = IsResting st.state
Reports (some c) st =
    (st ≡ status_of (if c.stopping then disconnecting else connected) c.mode c.route)
    × (c.stopping ≡ false → (c.rollback_previous ≡ none) × (c.failed_on_exit ≡ false))
    × RestoresTo c.rollback_previous c.rollback_status

-- The active session is the one that was installed last.
abbrev pub IsLatest : Option Session → ℕ → ℕ → Type 0
IsLatest none installed generation = Unit
IsLatest (some c) installed generation =
    (c.ident ≡ installed) × (c.generation ≡ generation) × IsOlder c.rollback_previous c.ident

-- Once closed, the service only waits for a session that stops.
abbrev pub IsWindingDown : Option Session → Type 0
IsWindingDown none = Unit
IsWindingDown (some c) = (c.stopping ≡ true) × (c.rollback_previous ≡ none)

pub record IsConsistent (s : Service) : Type 0 where
  pub reports : Reports s.active s.status
  pub latest : IsLatest s.active s.installed s.generation
  pub winding_down : s.closed ≡ true → IsWindingDown s.active

pub new_service-IsConsistent : IsConsistent new_service
unfolding new_service
new_service-IsConsistent = ground arith

pub rollback-IsConsistent :
    (t : RollbackTrace) (p : Previous) (st : SessionStatus) (s : Service)
    → s.closed ≡ false
    → s.active ≡ none
    → st ≡ status_of connected p.mode p.route
    → IsConsistent (rollback t p st s).0
unfolding rollback
rollback-IsConsistent t p st s h a e = ground arith

pub disconnect-IsConsistent :
    (e ctx : Option Err) (t : StopTrace) (s : Service)
    → IsConsistent s
    → IsConsistent (disconnect e ctx t s).0
unfolding disconnect stop_session
disconnect-IsConsistent e ctx t s v = ground arith

pub close-IsConsistent :
    (t : CloseTrace) (s : Service) → IsConsistent s → IsConsistent (close t s).0
unfolding close stop_session
close-IsConsistent t s v = ground arith

finish_exit-IsConsistent :
    (c : Session) (s : Service) → s.active ≡ none → IsConsistent (finish_exit c s)
unfolding finish_exit
finish_exit-IsConsistent c s a = ground arith

fall_back-IsConsistent :
    (t : RollbackTrace) (c : Session) (p : Previous) (s : Service)
    → s.closed ≡ false
    → s.active ≡ none
    → c.rollback_status ≡ status_of connected p.mode p.route
    → IsConsistent (fall_back t c p s)
unfolding fall_back
fall_back-IsConsistent t c p s h a e =
    rollback-IsConsistent t p c.rollback_status
      (if c.ident == p.ident then s else note (closed c.prepared) s) (ground arith) (ground arith) e

exit_previous-IsConsistent :
    (o : Option Previous) (t : RollbackTrace) (c : Session) (s : Service)
    → s.active ≡ none
    → RestoresTo o c.rollback_status
    → IsConsistent (exit_previous o t c s)
unfolding exit_previous
exit_previous-IsConsistent none t c s a r = finish_exit-IsConsistent c s a
exit_previous-IsConsistent (some p) t c s a r = elim (Bool-cases (c.stopping && not s.closed)) [
  | inl back ↦ rw back (fall_back-IsConsistent t c p s (ground arith) a r)
  | inr over ↦ rw over (finish_exit-IsConsistent c s a)
]

run_cancel_active : (c : Session) (s : Service) → (run_cancel c s).active ≡ s.active
run_cancel_active c s = ground arith

exit_active-IsConsistent :
    (o : Option Session) (t : RollbackTrace) (ident generation : ℕ) (s : Service)
    → s.active ≡ o
    → IsConsistent s
    → IsConsistent (exit_active o t ident generation s)
unfolding exit_active
exit_active-IsConsistent none t ident generation s e v = v
exit_active-IsConsistent (some c) t ident generation s e v =
    elim (Bool-cases (not (c.ident == ident) || not (s.generation == generation))) [
      | inl stale ↦ rw stale v
      | inr mine ↦
          let reports : Reports (some c) s.status = rw e at (v.reports) in
          rw mine (
            exit_previous-IsConsistent c.rollback_previous t c _
              (run_cancel_active c (set_active none (note (reaped c.process) s))) reports.2)
    ]

pub exit-IsConsistent :
    (t : RollbackTrace) (ident generation : ℕ) (s : Service)
    → IsConsistent s
    → IsConsistent (exit t ident generation s)
unfolding exit
exit-IsConsistent t ident generation s v =
    exit_active-IsConsistent s.active t ident generation s refl v
