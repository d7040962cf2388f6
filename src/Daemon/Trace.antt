-- ===== src/Daemon/Trace.antt =====
-- The service over every sequence of its operations and of the exits of its processes.
use tui_box.Prelude.{ℕ, Option}
use tui_box.Daemon.State.{Err, Service, Request, new_service}
use tui_box.Daemon.Stop.{StopTrace}
use tui_box.Daemon.Install.{RollbackTrace}
use tui_box.Daemon.Connect.{ConnectTrace, connect}
use tui_box.Daemon.Operations.{CloseTrace, disconnect, exit, close, close_runner}
use tui_box.Daemon.Steps.{
  IsConsistent, new_service-IsConsistent, disconnect-IsConsistent, close-IsConsistent,
  exit-IsConsistent,
}
use tui_box.Daemon.ConnectSteps.{connect-IsConsistent}

-- One operation, or the monitor of one session; the environment chooses what is observed.
pub data Step : Service → Service → Type 0 where
  connect_step : (t : ConnectTrace) (r : Request) (s : Service) → Step s (connect t r s).0
  disconnect_step :
      (e ctx : Option Err) (t : StopTrace) (s : Service) → Step s (disconnect e ctx t s).0
  exit_step :
      (t : RollbackTrace) (ident generation : ℕ) (s : Service) → Step s (exit t ident generation s)
  close_step : (t : CloseTrace) (s : Service) → Step s (close t s).0
  close_runner_step : (s : Service) → Step s (close_runner s)

pub data Reach (s : Service) : Service → Type 0 where
  here : Reach s s
  next : {t u : Service} → Reach s t → Step t u → Reach s u

Step-IsConsistent : {s t : Service} → Step s t → IsConsistent s → IsConsistent t
Step-IsConsistent (connect_step t r s) v = connect-IsConsistent t r s v
Step-IsConsistent (disconnect_step e ctx t s) v = disconnect-IsConsistent e ctx t s v
Step-IsConsistent (exit_step t ident generation s) v = exit-IsConsistent t ident generation s v
Step-IsConsistent (close_step t s) v = close-IsConsistent t s v
Step-IsConsistent (close_runner_step s) v =
    unfold close_runner in
    record { reports = v.reports; latest = v.latest; winding_down = v.winding_down }

Reach-IsConsistent : {s t : Service} → IsConsistent s → Reach s t → IsConsistent t
Reach-IsConsistent v here = v
Reach-IsConsistent v (next r st) = Step-IsConsistent st (Reach-IsConsistent v r)

-- Whatever operations run on a new service, whatever they observe, and whenever its processes
-- exit: the status is that of the active session (Connected, or Disconnecting while it stops), or
-- Disconnected or Failed if there is none; only a stopping session has one to fall back to; the
-- active session is the one installed last, with the current generation; and a closed service has
-- no session but one that stops.
pub reachable-IsConsistent : {s : Service} → Reach new_service s → IsConsistent s
reachable-IsConsistent r = Reach-IsConsistent new_service-IsConsistent r
