-- ===== src/Tui/Model.antt =====
-- internal/tui/model.go: the model, its messages and the commands it issues.
use tui_box.Prelude.{ℕ, Bool, false, Option, List, [], Bytes, String}
use tui_box.Prelude.Int.{ℤ}
use tui_box.Domain.Types.{Protocol, ConnectionMode, RouteMode, tun, global}
use tui_box.Daemon.State.{SessionStatus, is_disconnected}
use tui_box.Latency.Result.{Result}

pub record Server : Type 0 where
  pub id : Bytes
  pub name : Bytes
  pub protocol : Protocol
  pub latency : Option Result

-- selectionMode
pub data Selection : Type 0 where
  auto manual : Selection

-- inputMode
pub data Input : Type 0 where
  no_input name_input url_input : Input

-- The names of keys that the switches of update.go test; `other_key` is each other name.
pub data KeyName : Type 0 where
  ctrl_c q down j up k enter a m r n u l c d esc backspace other_key : KeyName

-- tea.KeyMsg: its name, and its runes where the type is KeyRunes.
pub record Key : Type 0 where
  pub name : KeyName
  pub is_runes : Bool
  pub runes : List ℕ

-- A tea.Cmd: quitting, or a call of the backend; the generation comes back with its result.
pub data Command : Type 0 where
  no_command quit : Command
  refresh check_latency disconnect : ℕ → Command
  connect : ℕ → Bytes → ConnectionMode → RouteMode → Command
  add_subscription : ℕ → Bytes → List ℕ → Command

-- actionResultMsg; `error` is the safe text of the error.
pub record ActionResult : Type 0 where
  pub generation : ℕ
  pub servers : Option (List Server)
  pub status : SessionStatus
  pub has_status : Bool
  pub message : String
  pub error : Option String

pub data Message : Type 0 where
  snapshot : List Server → SessionStatus → Option String → Message
  action_result : ActionResult → Message
  window_size : ℤ → ℤ → Message
  key_press : Key → Message

-- Model; `cancelled` records a call of `cancel`.
pub record Model : Type 0 where
  pub cancelled : Bool
  pub servers : List Server
  pub status : SessionStatus
  pub cursor : ℕ
  pub selection : Selection
  pub selected_id : Bytes
  pub mode : ConnectionMode
  pub route : RouteMode
  pub input : Input
  pub input_name : Bytes
  pub secret_input : List ℕ
  pub message : String
  pub error_message : String
  pub width : ℕ
  pub height : ℕ
  pub generation : ℕ
  pub busy : Bool

-- NewModel
unfoldable pub new_model : Model
new_model = record {
  cancelled = false;
  servers = [];
  status = is_disconnected;
  cursor = 0;
  selection = auto;
  selected_id = [];
  mode = tun;
  route = global;
  input = no_input;
  input_name = [];
  secret_input = [];
  message = "";
  error_message = "";
  width = 80;
  height = 24;
  generation = 0;
  busy = false;
}
