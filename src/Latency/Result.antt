-- ===== src/Latency/Result.antt =====
-- internal/latency/checker.go: results and their statuses.
use tui_box.Prelude.{Bool, true, false, Bytes}
use tui_box.Prelude.Int.{ℤ}
use tui_box.Domain.Types.{Protocol}
use tui_box.Domain.Checks.{Issue}

-- Status; `unset` is the empty string.
pub data Status : Type 0 where
  unset success unavailable unsupported : Status

-- What ctx.Err() returns.
pub data ContextErr : Type 0 where
  canceled deadline_exceeded : ContextErr

-- The cause that the field Error describes; its redacted text is not modelled. The last two are what
-- the application service writes instead.
pub data Cause : Type 0 where
  no_cause unsupported_protocol no_connection dial_failed : Cause
  invalid_endpoint : Issue → Cause
  context : ContextErr → Cause
  shown_unsupported shown_failed : Cause

-- Result; a Duration is a signed number of nanoseconds.
pub record Result : Type 0 where
  pub endpoint_id : Bytes
  pub protocol : Protocol
  pub duration : ℤ
  pub status : Status
  pub error : Cause

abbrev pub is_success : Status → Bool
is_success success = true
is_success _ = false
