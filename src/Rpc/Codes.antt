-- ===== src/Rpc/Codes.antt =====
-- internal/rpc/protocol.go: the errors of the protocol and their codes.
use tui_box.Prelude.{Bool, true, false, ◌||◌, Option, none, some, [], Bytes, bytes, if◌then◌else◌}
use tui_box.Latency.Result.{ContextErr}

-- The errors that the package declares.
pub data RpcErr : Type 0 where
  invalid_request unsupported_version access_denied core_validation process_failure : RpcErr
  process_stuck rollback_failure unavailable timeout internal invalid_response : RpcErr

-- Code; `other` is any other string.
pub data Code : Type 0 where
  invalid_request unsupported_version access_denied core_validation process_failure : Code
  process_stuck rollback_failure unavailable timeout internal : Code
  other : Bytes → Code

-- An error that is not nil, by what errors.Is finds in it.
pub record Cause : Type 0 where
  pub of_context : Option ContextErr
  pub is : RpcErr → Bool

abbrev pub is_context : Option ContextErr → Bool
is_context none = false
is_context (some c) = true

-- codeForError
unfoldable pub code_for_error : Cause → Code
code_for_error c =
    if c.is RpcErr.unsupported_version
    then Code.unsupported_version
    else if c.is RpcErr.invalid_request
    then Code.invalid_request
    else if c.is RpcErr.access_denied
    then Code.access_denied
    else if c.is RpcErr.core_validation
    then Code.core_validation
    else if c.is RpcErr.rollback_failure
    then Code.rollback_failure
    else if c.is RpcErr.process_stuck
    then Code.process_stuck
    else if c.is RpcErr.process_failure
    then Code.process_failure
    else if c.is RpcErr.unavailable
    then Code.unavailable
    else if c.is RpcErr.timeout || is_context c.of_context
    then Code.timeout
    else Code.internal

-- The texts of the errors.
unfoldable pub error_text : RpcErr → Bytes
error_text invalid_request = bytes "request is invalid"
error_text unsupported_version = bytes "protocol version is unsupported"
error_text access_denied = bytes "access is denied"
error_text core_validation = bytes "core configuration was rejected"
error_text process_failure = bytes "core process operation failed"
error_text process_stuck = bytes "core process did not exit"
error_text rollback_failure = bytes "previous core session could not be restored"
error_text unavailable = bytes "daemon is unavailable"
error_text timeout = bytes "operation timed out"
error_text internal = bytes "internal daemon error"
error_text invalid_response = bytes "daemon response is invalid"

-- messageForCode
unfoldable pub message_for_code : Code → Bytes
unfolding error_text
message_for_code invalid_request = error_text RpcErr.invalid_request
message_for_code unsupported_version = error_text RpcErr.unsupported_version
message_for_code access_denied = error_text RpcErr.access_denied
message_for_code core_validation = error_text RpcErr.core_validation
message_for_code process_failure = error_text RpcErr.process_failure
message_for_code process_stuck = error_text RpcErr.process_stuck
message_for_code rollback_failure = error_text RpcErr.rollback_failure
message_for_code unavailable = error_text RpcErr.unavailable
message_for_code timeout = error_text RpcErr.timeout
message_for_code internal = error_text RpcErr.internal
message_for_code (other s) = []

-- errorForCode
unfoldable pub error_for_code : Code → RpcErr
error_for_code invalid_request = RpcErr.invalid_request
error_for_code unsupported_version = RpcErr.unsupported_version
error_for_code access_denied = RpcErr.access_denied
error_for_code core_validation = RpcErr.core_validation
error_for_code process_failure = RpcErr.process_failure
error_for_code process_stuck = RpcErr.process_stuck
error_for_code rollback_failure = RpcErr.rollback_failure
error_for_code unavailable = RpcErr.unavailable
error_for_code timeout = RpcErr.timeout
error_for_code internal = RpcErr.internal
error_for_code (other s) = RpcErr.invalid_response

abbrev pub is_invalid_response : RpcErr → Bool
is_invalid_response invalid_response = true
is_invalid_response _ = false
