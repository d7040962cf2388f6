-- ===== src/Daemon/Stop.antt =====
-- internal/daemon/service.go: stopSessionUntil.
use tui_box.Prelude.{Bool, true, false, Option, none, some, List, [], ◌∷◌, ◌++◌, if◌then◌else◌}
use tui_box.Daemon.State.{
  Err, process_failure, process_stuck, signalled, killed, reaped, Session, Service, note,
}

-- How the first wait ends: the process is done, the context is done, or the grace time is over.
-- The error is what ctx.Err() returns then, if any.
pub data Wait : Type 0 where
  exited : Option Err → Wait
  context_done : Err → Wait
  grace_over : Wait

-- What stopSessionUntil observes: errors of Signal and Kill other than ErrProcessDone, the two
-- waits, and ctx.Err() at the end.
pub record StopTrace : Type 0 where
  pub signal_failed : Bool
  pub first : Wait
  pub kill_failed : Bool
  pub exits_after_kill : Bool
  pub context_at_end : Option Err

abbrev pub err_if : Bool → Err → List Err
err_if true e = e ∷ []
err_if false e = []

abbrev pub err_of : Option Err → List Err
err_of none = []
err_of (some e) = e ∷ []

-- The second half, after SIGKILL was sent.
unfoldable pub kill_and_wait : StopTrace → List Err → Session → Service → Service × Bool × List Err
kill_and_wait t errs c s =
    let errs' = errs ++ (err_if t.kill_failed process_failure ++ err_of t.context_at_end) in
    if t.exits_after_kill
    then (note (reaped c.process) (note (killed c.process) s), true, errs')
    else (note (killed c.process) s, false, errs' ++ process_stuck ∷ [])

unfoldable pub stop_waited :
    Wait → StopTrace → List Err → Session → Service → Service × Bool × List Err
stop_waited (exited e) t errs c s = (note (reaped c.process) s, true, errs ++ err_of e)
stop_waited (context_done e) t errs c s = kill_and_wait t (errs ++ e ∷ []) c s
stop_waited grace_over t errs c s = kill_and_wait t errs c s

-- stopSessionUntil: whether the process was reaped, and the joined errors.
unfoldable pub stop_session : StopTrace → Session → Service → Service × Bool × List Err
unfolding stop_waited kill_and_wait
stop_session t c s =
    stop_waited t.first t (err_if t.signal_failed process_failure) c (note (signalled c.process) s)
