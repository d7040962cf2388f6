-- ===== src/Daemon/Operations.antt =====
-- internal/daemon/service.go: Disconnect, Status, Health, the monitor of a session, Close.
use tui_box.Prelude.{
  ℕ, Bool, true, not, ◌&&◌, ◌||◌, Option, none, some, List, [], ◌∷◌, ◌++◌, ◌==◌, if◌then◌else◌,
}
use tui_box.Domain.Types.{disconnecting, failed}
use tui_box.Daemon.State.{
  SessionStatus, Err, unavailable, process_stuck, closed, reaped, Previous, Session, Service, Reply,
  status_of, no_status, is_disconnected, note, set_status, set_active, run_cancel, reply,
}
use tui_box.Daemon.Stop.{StopTrace, stop_session, err_of}
use tui_box.Daemon.Install.{RollbackTrace, rollback}

abbrev pub disconnecting_status : Service → SessionStatus
disconnecting_status s = status_of disconnecting s.status.mode s.status.route

-- Disconnect of a session that is not stopping.
unfoldable pub disconnect_session : Option Err → StopTrace → Session → Service → Reply
disconnect_session (some e) t c s = reply (e ∷ []) s
disconnect_session none t c s =
    let marked = record c { stopping = true } in
    let (s', is_reaped, errs) =
      stop_session t marked (record s { active = some marked; status = disconnecting_status s }) in
    if is_reaped
    then reply errs
        (set_status is_disconnected (note (closed c.prepared) (run_cancel c (set_active none s'))))
    else reply errs s'

unfoldable pub disconnect_active : Option Session → Option Err → StopTrace → Service → Reply
unfolding disconnect_session
disconnect_active none ctx t s = reply [] (set_status is_disconnected s)
disconnect_active (some c) ctx t s =
    if c.stopping then reply (process_stuck ∷ []) s else disconnect_session ctx t c s

-- Disconnect: the error of acquire, ctx.Err() before the stop, and what the stop observes.
unfoldable pub disconnect : Option Err → Option Err → StopTrace → Service → Reply
unfolding disconnect_active
disconnect (some e) ctx t s = (s, no_status, e ∷ [])
disconnect none ctx t s =
    if s.closed then reply (unavailable ∷ []) s else disconnect_active s.active ctx t s

-- Status
unfoldable pub status : Option Err → Service → SessionStatus × List Err
status (some e) s = (no_status, e ∷ [])
status none s = if s.closed then (s.status, unavailable ∷ []) else (s.status, [])

-- Health
unfoldable pub health : Option Err → Service → List Err
health (some e) s = e ∷ []
health none s = if s.closed then unavailable ∷ [] else []

-- The end of the monitor: no session to fall back to.
unfoldable pub exit_status : Session → Service → SessionStatus
exit_status c s =
    if c.failed_on_exit
    then status_of failed c.mode c.route
    else if s.closed || c.stopping
    then is_disconnected
    else status_of failed c.mode c.route

unfoldable pub finish_exit : Session → Service → Service
unfolding exit_status
finish_exit c s = note (closed c.prepared) (set_status (exit_status c s) s)

-- The monitor falls back to the session before; that one may be the session that ended.
unfoldable pub fall_back : RollbackTrace → Session → Previous → Service → Service
fall_back t c p s =
    (rollback t p c.rollback_status
      (if c.ident == p.ident then s else note (closed c.prepared) s)).0

unfoldable pub exit_previous : Option Previous → RollbackTrace → Session → Service → Service
exit_previous none t c s = finish_exit c s
exit_previous (some p) t c s =
    if c.stopping && not s.closed then fall_back t c p s else finish_exit c s

unfoldable pub exit_active : Option Session → RollbackTrace → ℕ → ℕ → Service → Service
exit_active none t ident generation s = s
exit_active (some c) t ident generation s =
    if not (c.ident == ident) || not (s.generation == generation)
    then s
    else exit_previous c.rollback_previous t c
        (run_cancel c (set_active none (note (reaped c.process) s)))

-- monitor, after the process of the session with this identity and generation has ended.
unfoldable pub exit : RollbackTrace → ℕ → ℕ → Service → Service
unfolding exit_active
exit t ident generation s = exit_active s.active t ident generation s

-- What Close observes: the stop of the active session, the errors of closing its configuration
-- and the runner, and whether every monitor ended in time.
pub record CloseTrace : Type 0 where
  pub stop : StopTrace
  pub prepared_error : Option Err
  pub monitors_finished : Bool
  pub runner_error : Option Err

-- Close of an active session.
unfoldable pub close_session : CloseTrace → Session → Service → Service × List Err
close_session t c s =
    let marked = record c { stopping = true; rollback_previous = none } in
    let (s', is_reaped, errs) =
      stop_session t.stop marked
        (record s { active = some marked; status = disconnecting_status s }) in
    if is_reaped
    then (
      set_status is_disconnected (note (closed c.prepared) (run_cancel c (set_active none s'))),
      errs ++ err_of t.prepared_error,
    )
    else (s', errs)

unfoldable pub close_active : Option Session → CloseTrace → Service → Service × List Err
unfolding close_session
close_active none t s = (s, [])
close_active (some c) t s = close_session t c s

-- The runner is closed once the monitors have ended; if that is later than the deadline, by a
-- step of its own (`close_runner`).
unfoldable pub finish_close : CloseTrace → List Err → Service → Service
finish_close t errs s =
    if t.monitors_finished
    then record s { runner_closed = true; close_err = errs ++ err_of t.runner_error }
    else record s { close_err = errs ++ process_stuck ∷ [] }

-- Close; a second call returns the first one's error.
unfoldable pub close : CloseTrace → Service → Service × List Err
unfolding close_active finish_close
close t s =
    if s.close_called
    then (s, s.close_err)
    else let (s', errs) =
        close_active s.active t (record s { closed = true; close_called = true }) in
      let done = finish_close t errs s' in (done, done.close_err)

-- closeRunner, by the goroutine that Close leaves behind.
unfoldable pub close_runner : Service → Service
close_runner s = record s { runner_closed = true }
