-- ===== src/Daemon/Shut.antt =====
-- internal/daemon/service.go: runs that go on after Close.
use tui_box.Prelude.{◌≡◌, ◌≢◌, refl, true, Option, [], arith}
use tui_box.Daemon.State.{Err, Service, Request}
use tui_box.Daemon.Stop.{StopTrace}
use tui_box.Daemon.Connect.{ConnectTrace, connect}
use tui_box.Daemon.Operations.{disconnect, exit, close_runner, status, health}
use tui_box.Daemon.Trace.{
  Step, connect_step, disconnect_step, exit_step, close_step, close_runner_step, Reach, here, next,
}
use tui_box.Daemon.ShutSteps.{
  IsShut, IsShut-self, IsShut-trans, Remains-self, connect-IsShut, disconnect-IsShut,
  exit_active-IsShut, close-IsShut,
}

runner-IsShut : (s : Service) → s.closed ≡ true → IsShut s (close_runner s)
unfolding close_runner
runner-IsShut s c = record {
  closed = c;
  installed = refl;
  generation = refl;
  starts_none = refl;
  session = Remains-self s.active;
}

Step-IsShut : {s s' : Service} → Step s s' → s.closed ≡ true → IsShut s s'
unfolding exit
Step-IsShut (connect_step t r s) c = connect-IsShut t r s c
Step-IsShut (disconnect_step e ctx t s) c = disconnect-IsShut e ctx t s c
Step-IsShut (exit_step t ident generation s) c = exit_active-IsShut s.active t ident generation s c
Step-IsShut (close_step t s) c = close-IsShut t s c
Step-IsShut (close_runner_step s) c = runner-IsShut s c

Reach-IsShut : {s s' : Service} → Reach s s' → s.closed ≡ true → IsShut s s'
Reach-IsShut {s} here c = IsShut-self s c
Reach-IsShut {s} (next {t = u} {u = v} r st) c =
    let before = Reach-IsShut r c in IsShut-trans s u v before (Step-IsShut st before.closed)

-- Whatever a Connect, a Disconnect, a Status and a Health observe, each returns an error.
abbrev pub AllFail : ConnectTrace → Request → Option Err → Option Err → StopTrace → Service → Type 0
AllFail t r acquire ctx stop s =
    ((connect t r s).2 ≢ [])
    × ((disconnect acquire ctx stop s).2 ≢ [])
    × ((status acquire s).1 ≢ [])
    × (health acquire s ≢ [])

connect-fails :
    (t : ConnectTrace) (r : Request) (s : Service) → s.closed ≡ true → (connect t r s).2 ≢ []
unfolding connect
connect-fails t r s c h = ground arith

shut-AllFail :
    (t : ConnectTrace) (r : Request) (acquire ctx : Option Err) (stop : StopTrace) (s : Service)
    → s.closed ≡ true
    → AllFail t r acquire ctx stop s
unfolding disconnect status health
shut-AllFail t r acquire ctx stop s c =
    (connect-fails t r s c, λ h. ground arith, λ h. ground arith, λ h. ground arith)

-- Over every run that starts with a closed service: it stays closed, no session is installed and no
-- process is started, also when the process of a session that was to roll back ends; the session is
-- the one that it had, or none. And at the end of the run every Connect, Disconnect, Status and
-- Health returns an error, whatever it observes.
pub closed_for_good :
    {s s' : Service} (t : ConnectTrace) (r : Request) (acquire ctx : Option Err) (stop : StopTrace)
    → Reach s s'
    → s.closed ≡ true
    → IsShut s s' × AllFail t r acquire ctx stop s'
closed_for_good {s} {s'} t r acquire ctx stop run c =
    let shut = Reach-IsShut run c in (shut, shut-AllFail t r acquire ctx stop s' shut.closed)
