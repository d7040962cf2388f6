-- ===== src/Daemon/State.antt =====
-- internal/daemon/service.go: the state of the service and its sessions.
-- The gate lets one operation run at a time, so an operation is a function on `Service`; what the
-- operation observes of its context, its runner and the process is an argument of it.
use tui_box.Prelude.{ℕ, Bool, false, Option, none, List, [], ◌∷◌, if◌then◌else◌}
use tui_box.Domain.Types.{ConnectionMode, RouteMode, ConnectionStatus, disconnected}

-- rpc.SessionStatus
pub record SessionStatus : Type 0 where
  pub state : ConnectionStatus
  pub mode : ConnectionMode
  pub route : RouteMode

abbrev pub no_status : SessionStatus
no_status = record {
  state = ConnectionStatus.unset;
  mode = ConnectionMode.unset;
  route = RouteMode.unset;
}

abbrev pub is_disconnected : SessionStatus
is_disconnected = record {
  state = disconnected;
  mode = ConnectionMode.unset;
  route = RouteMode.unset;
}

-- The errors that the service returns; errors.Join is a list, nil is the empty list.
pub data Err : Type 0 where
  unavailable process_stuck process_failure core_validation rollback_failure : Err
  canceled deadline_exceeded : Err

-- What the service does to the world, newest first: prepared configurations and processes go by
-- numbers.
pub data Effect : Type 0 where
  opened closed : ℕ → Effect
  started : ℕ → ℕ → Effect
  signalled killed reaped cancelled : ℕ → Effect

-- The session that a stopping session falls back to. Its mode, route and configuration never
-- change after it was installed, so the pointer `rollbackPrevious` is a copy of them; `ident`
-- says which session it is.
pub record Previous : Type 0 where
  pub ident : ℕ
  pub mode : ConnectionMode
  pub route : RouteMode
  pub prepared : ℕ

-- session; `ident` is the identity of the pointer.
pub record Session : Type 0 where
  pub ident : ℕ
  pub generation : ℕ
  pub mode : ConnectionMode
  pub route : RouteMode
  pub prepared : ℕ
  pub process : ℕ
  pub has_cancel : Bool
  pub stopping : Bool
  pub rollback_previous : Option Previous
  pub rollback_status : SessionStatus
  pub failed_on_exit : Bool

-- Service; `installed` counts the sessions ever allocated, and `log` records the effects.
pub record Service : Type 0 where
  pub closed : Bool
  pub generation : ℕ
  pub active : Option Session
  pub status : SessionStatus
  pub close_called : Bool
  pub close_err : List Err
  pub runner_closed : Bool
  pub installed : ℕ
  pub log : List Effect

-- NewService with accepted arguments.
unfoldable pub new_service : Service
new_service = record {
  closed = false;
  generation = 0;
  active = none;
  status = is_disconnected;
  close_called = false;
  close_err = [];
  runner_closed = false;
  installed = 0;
  log = [];
}

-- The mode and route that core.ConnectionRequest carries.
pub record Request : Type 0 where
  pub mode : ConnectionMode
  pub route : RouteMode

abbrev pub status_of : ConnectionStatus → ConnectionMode → RouteMode → SessionStatus
status_of st m r = record { state = st; mode = m; route = r }

abbrev pub previous_of : Session → Previous
previous_of s = record { ident = s.ident; mode = s.mode; route = s.route; prepared = s.prepared }

abbrev pub note : Effect → Service → Service
note x s = record s { log = x ∷ s.log }

abbrev pub set_status : SessionStatus → Service → Service
set_status st s = record s { status = st }

abbrev pub set_active : Option Session → Service → Service
set_active a s = record s { active = a }

-- `if current.cancel != nil { current.cancel() }`
abbrev pub run_cancel : Session → Service → Service
run_cancel c s = if c.has_cancel then note (cancelled c.process) s else s

-- What an operation returns: the service's status after it, and the joined errors.
abbrev pub Reply : Type 0
Reply = Service × SessionStatus × List Err

abbrev pub reply : List Err → Service → Reply
reply errs s = (s, s.status, errs)
