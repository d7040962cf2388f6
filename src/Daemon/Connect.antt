-- ===== src/Daemon/Connect.antt =====
-- internal/daemon/service.go: Connect, in the stages between its early returns.
use tui_box.Prelude.{ℕ, Bool, true, false, Option, none, some, List, [], ◌∷◌, ◌++◌, if◌then◌else◌}
use tui_box.Domain.Types.{connected, connecting, disconnecting, failed}
use tui_box.Daemon.State.{
  SessionStatus, Err, unavailable, process_stuck, process_failure, core_validation, opened, closed,
  started, Session, Service, Request, Reply, status_of, previous_of, no_status, is_disconnected,
  note, set_status, set_active, run_cancel, reply,
}
use tui_box.Daemon.Stop.{StopTrace, stop_session}
use tui_box.Daemon.Install.{
  StartResult, RollbackTrace, install_session, rollback, record_connect_failure,
}

-- What Connect observes, in the order of its tests: each `*_context` is ctx.Err() at that place.
pub record ConnectTrace : Type 0 where
  pub acquire_error : Option Err
  pub prepared : Option ℕ
  pub check_failed : Bool
  pub check_context : Option Err
  pub checked_context : Option Err
  pub replace_context : Option Err
  pub stop_old : StopTrace
  pub stopped_context : Option Err
  pub start : StartResult
  pub start_context : Option Err
  pub started_context : Option Err
  pub stop_new : StopTrace
  pub rollback : RollbackTrace

-- `if rollbackErr := rollbackLocked(old, oldStatus); …` behind an earlier error.
unfoldable pub roll_back_to : RollbackTrace → Session → SessionStatus → List Err → Service → Reply
roll_back_to t old old_status errs s =
    let (s', more) = rollback t (previous_of old) old_status s in reply (errs ++ more) s'

abbrev stopping_for : Option Session → SessionStatus → Session → Session
stopping_for none old_status c = record c {
  stopping = true;
  rollback_previous = none;
  rollback_status = old_status;
}
stopping_for (some old) old_status c = record c {
  stopping = true;
  rollback_previous = some (previous_of old);
  rollback_status = old_status;
}

abbrev set_state_disconnecting : Service → Service
set_state_disconnecting s = record s {
  status = status_of disconnecting s.status.mode s.status.route;
}

-- The context ended while the process started, and the new process was reaped.
unfoldable pub abandon_reaped :
    ConnectTrace → ℕ → Option Session → SessionStatus → Err → List Err → Service → Reply
abandon_reaped t h none old_status e errs s =
    reply (e ∷ errs) (set_status is_disconnected (note (closed h) (set_active none s)))
abandon_reaped t h (some old) old_status e errs s =
    let (s', more) =
      rollback t.rollback (previous_of old) old_status (note (closed h) (set_active none s)) in
    reply (e ∷ errs ++ more) s'

-- The stop of the new process, after its session was marked.
unfoldable pub abandon_marked :
    ConnectTrace → ℕ → Option Session → SessionStatus → Err → Session → Service → Reply
abandon_marked t h old old_status e c s =
    let (s', reaped, errs) = stop_session t.stop_new c s in
    if reaped then abandon_reaped t h old old_status e errs s' else reply errs s'

-- `current := service.active`, which installSessionLocked has just set.
abandon_active :
    Option Session → ConnectTrace → ℕ → Option Session → SessionStatus → Err → Service → Reply
abandon_active none t h old old_status e s = reply [] s
abandon_active (some c) t h old old_status e s =
    let marked = stopping_for old old_status c in
    abandon_marked t h old old_status e marked
      (set_state_disconnecting (set_active (some marked) s))

-- The context ended while the process started.
unfoldable pub abandon :
    ConnectTrace → Request → ℕ → ℕ → Option Session → SessionStatus → Err → Service → Reply
unfolding abandon_active
abandon t r h process old old_status e s =
    let current = install_session r.mode r.route h process false s.status s in
    abandon_active current.active t h old old_status e current

abbrev pub close_old : Option Session → Service → Service
close_old none s = s
close_old (some old) s = note (closed old.prepared) s

-- The process runs.
unfoldable pub started_stage :
    ConnectTrace → Request → ℕ → ℕ → Option Session → SessionStatus → Service → Reply
started_stage t r h process old old_status s = elim t.started_context [
  | some e ↦ abandon t r h process old old_status e s
  | none ↦ reply [] (
      close_old old
        (install_session r.mode r.route h process false (status_of connected r.mode r.route) s))
]

abbrev start_error : Option Err → Err
start_error none = process_failure
start_error (some e) = e

-- runner.Start failed.
unfoldable pub start_failed :
    ConnectTrace → Request → ℕ → Option Session → SessionStatus → Service → Reply
start_failed t r h none old_status s =
    reply (start_error t.start_context ∷ [])
      (set_status (status_of failed r.mode r.route) (note (closed h) s))
start_failed t r h (some old) old_status s =
    roll_back_to t.rollback old old_status (start_error t.start_context ∷ []) (note (closed h) s)

unfoldable pub start_result :
    Option ℕ → ConnectTrace → Request → ℕ → Option Session → SessionStatus → Service → Reply
start_result none t r h old old_status s = start_failed t r h old old_status s
start_result (some process) t r h old old_status s =
    let s' = note (started h process) s in
    if t.start.failed
    then start_failed t r h old old_status s'
    else started_stage t r h process old old_status s'

-- From the status Connecting to runner.Start.
unfoldable pub start_stage :
    ConnectTrace → Request → ℕ → Option Session → SessionStatus → Service → Reply
start_stage t r h none old_status s =
    start_result t.start.process t r h none old_status
      (set_status (status_of connecting r.mode r.route) s)
start_stage t r h (some old) old_status s =
    let s' = set_status (status_of connecting r.mode r.route) s in
    elim t.stopped_context [
      | some e ↦ roll_back_to t.rollback old old_status (e ∷ []) (note (closed h) s')
      | none ↦ start_result t.start.process t r h (some old) old_status s'
    ]

-- The old process was reaped, with the errors of the stop.
unfoldable pub old_reaped :
    ConnectTrace → Request → ℕ → Session → SessionStatus → List Err → Service → Reply
old_reaped t r h old old_status [] s = start_stage t r h (some old) old_status s
old_reaped t r h old old_status (e ∷ errs) s =
    roll_back_to t.rollback old old_status (e ∷ errs) (note (closed h) s)

-- The stop of the old process, after its session was marked.
unfoldable pub replace_marked :
    ConnectTrace → Request → ℕ → Session → SessionStatus → Session → Service → Reply
replace_marked t r h old old_status marked s =
    let (s', reaped, errs) = stop_session t.stop_old marked s in
    if reaped
    then old_reaped t r h old old_status errs (run_cancel old (set_active none s'))
    else reply errs (note (closed h) s')

-- Stops the old session before the new process starts.
unfoldable pub replace_old : ConnectTrace → Request → ℕ → Session → Service → Reply
replace_old t r h old s =
    let marked = stopping_for (some old) s.status old in
    replace_marked t r h old s.status marked (set_state_disconnecting (set_active (some marked) s))

-- The configuration was checked.
unfoldable pub checked_stage : Option Session → ConnectTrace → Request → ℕ → Service → Reply
checked_stage none t r h s = start_stage t r h none s.status s
checked_stage (some old) t r h s = elim t.replace_context [
  | some e ↦ reply (e ∷ []) (note (closed h) s)
  | none ↦ replace_old t r h old s
]

-- The configuration was prepared.
unfoldable pub prepared_stage : ConnectTrace → Request → ℕ → Service → Reply
prepared_stage t r h s =
    if t.check_failed
    then elim t.check_context [
      | some e ↦ reply (e ∷ []) (note (closed h) s)
      | none ↦ reply (core_validation ∷ []) (record_connect_failure s.active r (note (closed h) s))
    ]
    else elim t.checked_context [
      | some e ↦ reply (e ∷ []) (note (closed h) s)
      | none ↦ checked_stage s.active t r h s
    ]

unfoldable pub prepare_result : Option ℕ → ConnectTrace → Request → Service → Reply
prepare_result none t r s = reply (core_validation ∷ []) (record_connect_failure s.active r s)
prepare_result (some h) t r s = prepared_stage t r h (note (opened h) s)

abbrev pub is_stopping : Option Session → Bool
is_stopping none = false
is_stopping (some c) = c.stopping

-- Connect
unfoldable pub connect : ConnectTrace → Request → Service → Reply
connect t r s = elim t.acquire_error [
  | some e ↦ (s, no_status, e ∷ [])
  | none ↦
      if s.closed
      then reply (unavailable ∷ []) s
      else if is_stopping s.active
      then reply (process_stuck ∷ []) s
      else prepare_result t.prepared t r s
]
