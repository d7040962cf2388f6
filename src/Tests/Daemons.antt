-- ===== src/Tests/Daemons.antt =====
-- Runs of the service.
use tui_box.Prelude.{◌+◌, ◌≡◌, refl, true, false, none, some, []}
use tui_box.Domain.Types.{tun, proxy, global, rule, connected, disconnecting}
use tui_box.Daemon.State.{previous_of, Session, Service, Request, new_service, status_of}
use tui_box.Daemon.Stop.{StopTrace, exited, grace_over, stop_session}
use tui_box.Daemon.StopLaws.{WasStopped, SameButLog, stop_session_lem}
use tui_box.Daemon.Install.{RollbackTrace, install_session, rollback}
use tui_box.Daemon.Connect.{
  ConnectTrace, connect, prepare_result, prepared_stage, checked_stage, replace_old, replace_marked,
  old_reaped, start_stage, start_result, started_stage, start_failed, roll_back_to,
}
use tui_box.Daemon.ConnectResult.{Runs, connect_honest}
use tui_box.Daemon.Operations.{exit}
use tui_box.Daemon.Steps.{IsConsistent}
use tui_box.Daemon.Trace.{connect_step, Reach, here, next, reachable-IsConsistent, exit_step}
use tui_box.Daemon.ShutSteps.{IsShut}
use tui_box.Daemon.Shut.{AllFail, closed_for_good}
use tui_box.Daemon.Ownership.Balance.{opens, closes, held}
use tui_box.Daemon.Ownership.Owned.{configurations_owned}

-- A process that ends after SIGTERM.
abbrev polite : StopTrace
polite = record {
  signal_failed = false;
  first = exited none;
  kill_failed = false;
  exits_after_kill = false;
  context_at_end = none;
}

-- A process that survives SIGKILL.
abbrev stubborn : StopTrace
stubborn = record polite { first = grace_over }

abbrev restarts : RollbackTrace
restarts = record { start = record { process = some 99; failed = false }; too_late = false }

-- Everything succeeds: configuration 1, process 11.
abbrev smooth : ConnectTrace
smooth = record {
  acquire_error = none;
  prepared = some 1;
  check_failed = false;
  check_context = none;
  checked_context = none;
  replace_context = none;
  stop_old = polite;
  stopped_context = none;
  start = record { process = some 11; failed = false };
  start_context = none;
  started_context = none;
  stop_new = polite;
  rollback = restarts;
}

-- The second Connect: configuration 2, and the process does not start.
abbrev broken : ConnectTrace
broken = record smooth { prepared = some 2; start = record { process = none; failed = true } }

abbrev tun_request : Request
tun_request = record { mode = tun; route = global }

abbrev proxy_request : Request
proxy_request = record { mode = proxy; route = rule }

abbrev once : Service
once = (connect smooth tun_request new_service).0

abbrev twice : Service
twice = (connect broken proxy_request once).0

once_reached : Reach new_service once
once_reached = next here (connect_step smooth tun_request new_service)

-- The first session comes back after the second failed to start.
twice_reached : Reach new_service twice
twice_reached = next once_reached (connect_step broken proxy_request once)

once_succeeds : (connect smooth tun_request new_service).2 ≡ []
unfolding connect prepare_result prepared_stage checked_stage start_stage start_result started_stage
    install_session new_service
once_succeeds = refl

twice_rolled_back : (twice.status ≡ status_of connected tun global) × (twice.installed ≡ 2)
unfolding connect prepare_result prepared_stage checked_stage replace_old replace_marked old_reaped
    start_stage start_result start_failed roll_back_to rollback stop_session started_stage
    install_session new_service
twice_rolled_back = (refl, refl)

reachable-IsConsistent_example : IsConsistent twice
reachable-IsConsistent_example = reachable-IsConsistent twice_reached

connect_honest_example :
    Runs tun_request (some 11) once.active
    × (once.status ≡ status_of connected tun global)
    × ((connect smooth tun_request new_service).1 ≡ status_of connected tun global)
connect_honest_example = connect_honest smooth tun_request new_service once_succeeds

twice_open : twice.closed ≡ false
unfolding connect prepare_result prepared_stage checked_stage replace_old replace_marked old_reaped
    start_stage start_result start_failed roll_back_to rollback stop_session started_stage
    install_session new_service
twice_open = refl

configurations_owned_example : opens 1 twice.log ≡ closes 1 twice.log + held 1 twice.active
configurations_owned_example = configurations_owned 1 twice_reached twice_open

abbrev shut_down : Service
shut_down = record {
  closed = true;
  generation = 1;
  active = none;
  status = status_of disconnecting tun global;
  close_called = true;
  close_err = [];
  runner_closed = true;
  installed = 1;
  log = [];
}

abbrev some_session : Session
some_session = record {
  ident = 1;
  generation = 1;
  mode = tun;
  route = global;
  prepared = 1;
  process = 11;
  has_cancel = false;
  stopping = true;
  rollback_previous = none;
  rollback_status = status_of connected tun global;
  failed_on_exit = false;
}

stop_session_lem_example :
    WasStopped stubborn 11
      (stop_session stubborn some_session shut_down).1
      (stop_session stubborn some_session shut_down).2
      []
      (stop_session stubborn some_session shut_down).0.log
    × SameButLog shut_down (stop_session stubborn some_session shut_down).0
stop_session_lem_example = stop_session_lem stubborn some_session shut_down

-- A closed service whose session was to be replaced: its process ends, and nothing is rolled back.
abbrev winding_down : Service
winding_down = record shut_down {
  active = some (record some_session {
    stopping = true;
    rollback_previous = some (previous_of some_session);
  });
}

abbrev ready : RollbackTrace
ready = record { start = record { process = some 12; failed = false }; too_late = false }

closed_for_good_example :
    IsShut winding_down (exit ready 1 1 winding_down)
    × AllFail smooth tun_request none none polite (exit ready 1 1 winding_down)
closed_for_good_example =
    closed_for_good smooth tun_request none none polite
      (next here (exit_step ready 1 1 winding_down)) refl
