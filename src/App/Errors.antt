-- ===== src/App/Errors.antt =====
-- internal/app/service.go: its errors, and the tests of its arguments.
use tui_box.Prelude.{
  ℕ, Bool, true, false, not, ◌&&◌, ◌||◌, Option, none, some, Bytes, leb, ◌==◌, length, all,
  if◌then◌else◌,
}
use tui_box.TerminalText.{Tables, valid, is_blank}
use tui_box.TerminalText.Utf8.{valid_string, range_runes}
use tui_box.Domain.Types.{ConnectionMode, RouteMode, tun, proxy, global, rule, direct}
use tui_box.Domain.Endpoint.{max_id_length}
use tui_box.Latency.Result.{ContextErr}
use tui_box.Store.File.{StoreErr}
use tui_box.Rpc.Codes.{
  RpcErr, invalid_request, unsupported_version, access_denied, core_validation, process_failure,
  process_stuck, rollback_failure, unavailable, timeout, internal, invalid_response, Cause,
}
use tui_box.App.Runes.{is_identifier_rune}

-- The errors that the service returns; errors.Join is a list, nil is the empty list.
pub data Err : Type 0 where
  invalid_input subscription_not_found server_not_found state_operation secret_operation : Err
  refresh_failed refresh_stale : Err
  context : ContextErr → Err
  daemon : RpcErr → Err

-- Which error of a context an error is, by errors.Is.
abbrev pub store_cause : StoreErr → Option ContextErr
store_cause StoreErr.canceled = some ContextErr.canceled
store_cause StoreErr.deadline_exceeded = some ContextErr.deadline_exceeded
store_cause _ = none

-- contextError; `over` is ctx.Err().
unfoldable pub context_error : Option ContextErr → Option ContextErr → Option ContextErr
context_error (some c) cause = some c
context_error none cause = cause

-- operationError on an error that is not nil; on nil it returns the fallback.
unfoldable pub operation_error : Option ContextErr → Option ContextErr → Err → Err
unfolding context_error
operation_error over cause fallback = elim (context_error over cause) [
  | some c ↦ context c
  | none ↦ fallback
]

-- safeDaemonErrors, from the first that errors.Is finds; rpc.ErrInternal if there is none.
unfoldable pub safe_daemon_error : Cause → RpcErr
safe_daemon_error c =
    if c.is invalid_request
    then invalid_request
    else if c.is unsupported_version
    then unsupported_version
    else if c.is access_denied
    then access_denied
    else if c.is core_validation
    then core_validation
    else if c.is process_failure
    then process_failure
    else if c.is process_stuck
    then process_stuck
    else if c.is rollback_failure
    then rollback_failure
    else if c.is unavailable
    then unavailable
    else if c.is timeout
    then timeout
    else if c.is internal
    then internal
    else if c.is invalid_response
    then invalid_response
    else internal

-- daemonOperationError on an error that is not nil.
unfoldable pub daemon_operation_error : Option ContextErr → Cause → Err
unfolding context_error safe_daemon_error
daemon_operation_error over c = elim (context_error over c.of_context) [
  | some e ↦ context e
  | none ↦ daemon (safe_daemon_error c)
]

-- validText
unfoldable pub valid_text : Tables → Bytes → ℕ → Bool → Bool
valid_text t value max_bytes is_required =
    if is_required && is_blank value
      || not (valid_string value)
      || not (leb (length value) max_bytes)
    then false
    else valid t value

-- validIdentifier
unfoldable pub valid_identifier : Bytes → Bool
unfolding is_identifier_rune
valid_identifier value =
    if length value == 0 || not (leb (length value) max_id_length)
    then false
    else all is_identifier_rune (range_runes value)

-- validConnectionMode
unfoldable pub valid_connection_mode : ConnectionMode → Bool
valid_connection_mode tun = true
valid_connection_mode proxy = true
valid_connection_mode _ = false

-- validRouteMode
unfoldable pub valid_route_mode : RouteMode → Bool
valid_route_mode global = true
valid_route_mode rule = true
valid_route_mode direct = true
valid_route_mode _ = false
