-- ===== src/Daemon/StartSteps.antt =====
-- internal/daemon/service.go: Connect and the invariant, from the start of the new process on.
use tui_box.Prelude.{
  ℕ, ◌≡◌, ◌≤◌, refl, false, Option, none, some, List, arith, Bool-cases, if_both, Option-cases, inl,
  inr, ◌∙◌,
}
use tui_box.Domain.Types.{connected, connecting}
use tui_box.Daemon.State.{
  SessionStatus, Err, Session, Service, Request, Reply, status_of, previous_of, note, set_active,
  closed, started,
}
use tui_box.Daemon.StopLaws.{SameButLog, stop_session-SameButLog}
use tui_box.Daemon.Stop.{stop_session}
use tui_box.Daemon.Install.{RollbackTrace, install_session}
use tui_box.Daemon.Connect.{
  ConnectTrace, abandon_reaped, abandon, abandon_marked, started_stage, start_failed, start_stage,
  roll_back_to, close_old, start_result,
}
use tui_box.Daemon.Steps.{IsConsistent, rollback-IsConsistent}

-- The status to restore is that of the old session.
abbrev pub Restores : Option Session → SessionStatus → Type 0
Restores none st = Unit
Restores (some old) st = st ≡ status_of connected old.mode old.route

-- The old session was installed before.
abbrev pub IsEarlier : Option Session → ℕ → Type 0
IsEarlier none installed = Unit
IsEarlier (some old) installed = old.ident ≤ installed

abbrev pub Holds : Reply → Type 0
Holds x = IsConsistent x.0

abandon_reaped-IsConsistent :
    (t : ConnectTrace) (h : ℕ) (old : Option Session) (st : SessionStatus) (e : Err)
    (errs : List Err) (s : Service)
    → s.closed ≡ false
    → Restores old st
    → IsConsistent (abandon_reaped t h old st e errs s).0
unfolding abandon_reaped
abandon_reaped-IsConsistent t h none st e errs s c k = ground arith
abandon_reaped-IsConsistent t h (some old) st e errs s c k =
    rollback-IsConsistent t.rollback (previous_of old) st (note (closed h) (set_active none s)) c
      refl k

pub roll_back_to-IsConsistent :
    (t : RollbackTrace) (old : Session) (st : SessionStatus) (errs : List Err) (s : Service)
    → s.closed ≡ false
    → s.active ≡ none
    → st ≡ status_of connected old.mode old.route
    → IsConsistent (roll_back_to t old st errs s).0
unfolding roll_back_to
roll_back_to-IsConsistent t old st errs s c a k =
    rollback-IsConsistent t (previous_of old) st s c a k

start_failed-IsConsistent :
    (t : ConnectTrace) (r : Request) (h : ℕ) (old : Option Session) (st : SessionStatus)
    (s : Service)
    → s.closed ≡ false
    → s.active ≡ none
    → Restores old st
    → IsConsistent (start_failed t r h old st s).0
unfolding start_failed
start_failed-IsConsistent t r h none st s c a k = ground arith
start_failed-IsConsistent t r h (some old) st s c a k =
    roll_back_to-IsConsistent t.rollback old st _ (note (closed h) s) c a k

pub SameButLog-IsConsistent : (s s' : Service) → SameButLog s s' → IsConsistent s → IsConsistent s'
SameButLog-IsConsistent s s' l v = record {
  reports = rw (l.active, l.status) v.reports;
  latest = rw (l.active, l.installed, l.generation) v.latest;
  winding_down = rw (l.closed, l.active) v.winding_down;
}

abandon_marked-IsConsistent :
    (t : ConnectTrace) (h : ℕ) (old : Option Session) (st : SessionStatus) (e : Err) (c : Session)
    (s : Service)
    → s.closed ≡ false
    → Restores old st
    → IsConsistent s
    → IsConsistent (abandon_marked t h old st e c s).0
unfolding abandon_marked
abandon_marked-IsConsistent t h old st e c s open_yet k v =
    let same_one = stop_session-SameButLog t.stop_new c s in
    elim (Bool-cases (stop_session t.stop_new c s).1) [
      | inl done ↦
          rw (done, abandon_marked)
            (abandon_reaped-IsConsistent t h old st e _ _ (same_one.closed ∙ open_yet) k)
      | inr stuck ↦ rw (stuck, abandon_marked) (SameButLog-IsConsistent s _ same_one v)
    ]

abandon-IsConsistent :
    (t : ConnectTrace) (r : Request) (h process : ℕ) (old : Option Session) (st : SessionStatus)
    (e : Err) (s : Service)
    → s.closed ≡ false
    → Restores old st
    → IsEarlier old s.installed
    → s.status ≡ status_of connecting r.mode r.route
    → IsConsistent (abandon t r h process old st e s).0
unfolding abandon install_session
abandon-IsConsistent t r h process none st e s c k l m =
    abandon_marked-IsConsistent t h none st e _ _ c k (ground arith)
abandon-IsConsistent t r h process (some old) st e s c k l m =
    abandon_marked-IsConsistent t h (some old) st e _ _ c k (ground arith)

installed_IsConsistent :
    (old : Option Session) (r : Request) (h process : ℕ) (s : Service)
    → s.closed ≡ false
    → IsConsistent (
        close_old old
          (install_session r.mode r.route h process false (status_of connected r.mode r.route) s))
unfolding install_session
installed_IsConsistent none r h process s c = ground arith
installed_IsConsistent (some old) r h process s c = ground arith

started_stage-IsConsistent :
    (t : ConnectTrace) (r : Request) (h process : ℕ) (old : Option Session) (st : SessionStatus)
    (s : Service)
    → s.closed ≡ false
    → Restores old st
    → IsEarlier old s.installed
    → s.status ≡ status_of connecting r.mode r.route
    → IsConsistent (started_stage t r h process old st s).0
unfolding started_stage
started_stage-IsConsistent t r h process old st s c k l m = elim (Option-cases t.started_context) [
  | inl live ↦ rw (live, started_stage) (installed_IsConsistent old r h process s c)
  | inr (e, over) ↦ rw (over, started_stage) (abandon-IsConsistent t r h process old st e s c k l m)
]

start_result-IsConsistent :
    (o : Option ℕ) (t : ConnectTrace) (r : Request) (h : ℕ) (old : Option Session)
    (st : SessionStatus) (s : Service)
    → s.closed ≡ false
    → s.active ≡ none
    → Restores old st
    → IsEarlier old s.installed
    → s.status ≡ status_of connecting r.mode r.route
    → IsConsistent (start_result o t r h old st s).0
unfolding start_result
start_result-IsConsistent none t r h old st s c a k l m =
    start_failed-IsConsistent t r h old st s c a k
start_result-IsConsistent (some process) t r h old st s c a k l m =
    if_both Holds t.start.failed
      (λ bad. start_failed-IsConsistent t r h old st (note (started h process) s) c a k)
      (λ good. started_stage-IsConsistent t r h process old st (note (started h process) s) c k l m)

pub start_stage-IsConsistent :
    (t : ConnectTrace) (r : Request) (h : ℕ) (old : Option Session) (st : SessionStatus)
    (s : Service)
    → s.closed ≡ false
    → s.active ≡ none
    → Restores old st
    → IsEarlier old s.installed
    → IsConsistent (start_stage t r h old st s).0
unfolding start_stage
start_stage-IsConsistent t r h none st s c a k l =
    start_result-IsConsistent t.start.process t r h none st _ c a k l refl
start_stage-IsConsistent t r h (some old) st s c a k l = elim (Option-cases t.stopped_context) [
  | inl live ↦
      rw (live, start_stage)
        (start_result-IsConsistent t.start.process t r h (some old) st _ c a k l refl)
  | inr (e, over) ↦ rw (over, start_stage) (roll_back_to-IsConsistent t.rollback old st _ _ c a k)
]
