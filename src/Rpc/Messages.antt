-- ===== src/Rpc/Messages.antt =====
-- internal/rpc/protocol.go: requests and responses, and their validation.
use tui_box.Prelude.{
  ℕ, Bool, true, false, not, ◌&&◌, ◌||◌, Option, none, some, Bytes, same, leb, ◌==◌, length, all,
  if◌then◌else◌,
}
use tui_box.Prelude.Int.{ℤ, pos, int_eq}
use tui_box.TerminalText.Utf8.{range_runes}
use tui_box.Domain.Types.{Endpoint, ConnectionMode, RouteMode, ConnectionStatus}
use tui_box.Daemon.State.{SessionStatus}
use tui_box.App.Runes.{is_identifier_rune}
use tui_box.Rpc.Codes.{
  RpcErr, Code, Cause, code_for_error, message_for_code, error_for_code, is_invalid_response,
}

abbrev pub protocol_version : ℤ
protocol_version = pos 1

abbrev pub max_request_id_bytes : ℕ
max_request_id_bytes = 64

abbrev pub max_response_message : ℕ
max_response_message = 128

-- Operation; `other` is any other string.
pub data Operation : Type 0 where
  connect disconnect status health : Operation
  other : Bytes → Operation

-- ConnectPayload, without its rules for direct connections.
pub record ConnectPayload : Type 0 where
  pub endpoint : Option Endpoint
  pub mode : ConnectionMode
  pub route : RouteMode

-- Request
pub record Request : Type 0 where
  pub version : ℤ
  pub id : Bytes
  pub operation : Operation
  pub connect : Option ConnectPayload
  pub connect_present : Bool

-- ResponseError
pub record ResponseError : Type 0 where
  pub code : Code
  pub message : Bytes

-- Response; a HealthStatus is its field Ready.
pub record Response : Type 0 where
  pub version : ℤ
  pub id : Bytes
  pub success : Bool
  pub status : Option SessionStatus
  pub health : Option Bool
  pub error : Option ResponseError

abbrev pub is_some {ℓ} : {A : Type ℓ} → Option A → Bool
is_some none = false
is_some (some a) = true

-- validRequestID
unfoldable pub valid_request_id : Bytes → Bool
valid_request_id value =
    if length value == 0 || not (leb (length value) max_request_id_bytes)
    then false
    else all is_identifier_rune (range_runes value)

abbrev pub check_operation : Operation → Bool → Option ConnectPayload → Option RpcErr
check_operation connect true (some c) = none
check_operation connect true none = some RpcErr.invalid_request
check_operation connect false c = some RpcErr.invalid_request
check_operation (other s) present c = some RpcErr.invalid_request
check_operation _ true c = some RpcErr.invalid_request
check_operation _ false c = none

-- validateRequest; `none` is nil.
unfoldable pub validate_request : Request → Option RpcErr
validate_request r =
    if not (int_eq r.version protocol_version)
    then some RpcErr.unsupported_version
    else if not (valid_request_id r.id)
    then some RpcErr.invalid_request
    else check_operation r.operation (r.connect_present || is_some r.connect) r.connect

-- responseForError
unfoldable pub response_for_error : Bytes → Cause → Response
response_for_error id c = record {
  version = protocol_version;
  id = id;
  success = false;
  status = none;
  health = none;
  error = some (record { code = code_for_error c; message = message_for_code (code_for_error c) });
}

abbrev is_known_state : ConnectionStatus → Bool
is_known_state ConnectionStatus.unset = false
is_known_state (ConnectionStatus.other s) = false
is_known_state _ = true

abbrev is_mode_or_unset : ConnectionMode → Bool
is_mode_or_unset (ConnectionMode.other s) = false
is_mode_or_unset _ = true

abbrev is_route_or_unset : RouteMode → Bool
is_route_or_unset (RouteMode.other s) = false
is_route_or_unset _ = true

-- validSessionStatus
unfoldable pub valid_session_status : SessionStatus → Bool
valid_session_status s =
    is_known_state s.state && is_mode_or_unset s.mode && is_route_or_unset s.route

-- The part of validateResponse on a response that is a success.
unfoldable pub valid_success : Response → Bool
valid_success r = elim r.error [
  | some e ↦ false
  | none ↦ elim r.status [
    | some s ↦ elim r.health [ some h ↦ false | none ↦ valid_session_status s ]
    | none ↦ elim r.health [ some ready ↦ ready | none ↦ false ]
  ]
]

unfoldable pub valid_error : ResponseError → Bool
valid_error e = not (
    length e.message == 0
    || not (leb (length e.message) max_response_message)
    || not (same e.message (message_for_code e.code))
    || is_invalid_response (error_for_code e.code))

-- The part on a response that is an error.
unfoldable pub valid_failure : Response → Bool
valid_failure r =
    if is_some r.status || is_some r.health
    then false
    else elim r.error [ none ↦ false | some e ↦ valid_error e ]

-- validateResponse returns nil.
unfoldable pub valid_response : Response → Bytes → Bool
valid_response r request_id =
    if not (int_eq r.version protocol_version)
      || not (same r.id request_id)
      || not (valid_request_id r.id)
    then false
    else if r.success
    then valid_success r
    else valid_failure r
