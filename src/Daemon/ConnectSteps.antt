-- ===== src/Daemon/ConnectSteps.antt =====
-- internal/daemon/service.go: Connect and the invariant, up to the stop of the old process.
use tui_box.Prelude.{
  ℕ, ◌≡◌, ◌≤◌, refl, false, Option, none, some, List, [], ◌∷◌, arith, if_both, Option-cases, inl,
  inr, ◌∙◌,
}
use tui_box.Domain.Types.{connected}
use tui_box.Daemon.State.{
  SessionStatus, Err, Session, Service, Request, status_of, note, set_active, closed, opened,
  run_cancel,
}
use tui_box.Daemon.StopLaws.{SameButLog, stop_session-SameButLog}
use tui_box.Daemon.Stop.{stop_session}
use tui_box.Daemon.Install.{record_connect_failure}
use tui_box.Daemon.Connect.{
  ConnectTrace, connect, replace_marked, old_reaped, replace_old, checked_stage, prepared_stage,
  prepare_result, is_stopping,
}
use tui_box.Daemon.Steps.{IsConsistent}
use tui_box.Daemon.StartSteps.{
  Holds, roll_back_to-IsConsistent, start_stage-IsConsistent, SameButLog-IsConsistent,
}

old_reaped-IsConsistent :
    (t : ConnectTrace) (r : Request) (h : ℕ) (old : Session) (st : SessionStatus) (errs : List Err)
    (s : Service)
    → s.closed ≡ false
    → s.active ≡ none
    → st ≡ status_of connected old.mode old.route
    → old.ident ≤ s.installed
    → IsConsistent (old_reaped t r h old st errs s).0
unfolding old_reaped
old_reaped-IsConsistent t r h old st [] s c a k l =
    start_stage-IsConsistent t r h (some old) st s c a k l
old_reaped-IsConsistent t r h old st (e ∷ errs) s c a k l =
    roll_back_to-IsConsistent t.rollback old st (e ∷ errs) (note (closed h) s) c a k

run_cancel-SameButLog : (c : Session) (s : Service) → SameButLog s (run_cancel c s)
run_cancel-SameButLog c s = ground arith

replace_marked-IsConsistent :
    (t : ConnectTrace) (r : Request) (h : ℕ) (old : Session) (st : SessionStatus) (c : Session)
    (s : Service)
    → s.closed ≡ false
    → IsConsistent s
    → st ≡ status_of connected old.mode old.route
    → old.ident ≤ s.installed
    → IsConsistent (replace_marked t r h old st c s).0
unfolding replace_marked
replace_marked-IsConsistent t r h old st c s open_yet v k l =
    let s' = (stop_session t.stop_old c s).0 in
    let same_one = stop_session-SameButLog t.stop_old c s in
    let cancelled = run_cancel-SameButLog old (set_active none s') in
    if_both Holds (stop_session t.stop_old c s).1
      (λ done.
        old_reaped-IsConsistent t r h old st (stop_session t.stop_old c s).2
          (run_cancel old (set_active none s')) (cancelled.closed ∙ same_one.closed ∙ open_yet)
          cancelled.active k (rw (cancelled.installed, same_one.installed) l))
      (λ stuck.
        SameButLog-IsConsistent s (note (closed h) s')
          (record {
            closed = same_one.closed;
            generation = same_one.generation;
            active = same_one.active;
            status = same_one.status;
            close_called = same_one.close_called;
            close_err = same_one.close_err;
            runner_closed = same_one.runner_closed;
            installed = same_one.installed;
          })
          v)

replace_old-IsConsistent :
    (t : ConnectTrace) (r : Request) (h : ℕ) (old : Session) (s : Service)
    → s.closed ≡ false
    → s.active ≡ some old
    → old.stopping ≡ false
    → IsConsistent s
    → IsConsistent (replace_old t r h old s).0
unfolding replace_old
replace_old-IsConsistent t r h old s c a running v =
    replace_marked-IsConsistent t r h old s.status _ _ c (ground arith) (ground arith)
      (ground arith)

checked_stage-IsConsistent :
    (o : Option Session) (t : ConnectTrace) (r : Request) (h : ℕ) (s : Service)
    → s.closed ≡ false
    → s.active ≡ o
    → is_stopping o ≡ false
    → IsConsistent s
    → IsConsistent (checked_stage o t r h s).0
unfolding checked_stage
checked_stage-IsConsistent none t r h s c a i v =
    start_stage-IsConsistent t r h none s.status s c a tt tt
checked_stage-IsConsistent (some old) t r h s c a i v = elim (Option-cases t.replace_context) [
  | inl live ↦ rw (live, checked_stage) (replace_old-IsConsistent t r h old s c a i v)
  | inr (e, over) ↦
      rw (over, checked_stage)
        (record { reports = v.reports; latest = v.latest; winding_down = v.winding_down })
]

prepared_stage-IsConsistent :
    (t : ConnectTrace) (r : Request) (h : ℕ) (s : Service)
    → s.closed ≡ false
    → is_stopping s.active ≡ false
    → IsConsistent s
    → IsConsistent (prepared_stage t r h s).0
unfolding prepared_stage record_connect_failure
prepared_stage-IsConsistent t r h s c i v =
    ground (arith, checked_stage-IsConsistent s.active t r h s c refl i v)

prepare_result-IsConsistent :
    (o : Option ℕ) (t : ConnectTrace) (r : Request) (s : Service)
    → s.closed ≡ false
    → is_stopping s.active ≡ false
    → IsConsistent s
    → IsConsistent (prepare_result o t r s).0
unfolding prepare_result record_connect_failure
prepare_result-IsConsistent none t r s c i v = ground arith
prepare_result-IsConsistent (some h) t r s c i v =
    prepared_stage-IsConsistent t r h (note (opened h) s) c i
      (record { reports = v.reports; latest = v.latest; winding_down = v.winding_down })

-- Connect keeps the invariant on every path.
pub connect-IsConsistent :
    (t : ConnectTrace) (r : Request) (s : Service) → IsConsistent s → IsConsistent (connect t r s).0
unfolding connect
connect-IsConsistent t r s v = elim (Option-cases t.acquire_error) [
  | inl got ↦
      rw (got, connect)
        (if_both Holds s.closed (λ _. v)
          (λ c.
            if_both Holds (is_stopping s.active) (λ _. v)
              (λ i. prepare_result-IsConsistent t.prepared t r s c i v)))
  | inr (e, failed_early) ↦ rw (failed_early, connect) v
]
