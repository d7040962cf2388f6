-- ===== src/Domain/Subscription.antt =====
-- internal/domain/subscription.go: what is kept of a subscription.
use tui_box.Prelude.{ℕ, Bool, true, false, Option, Bytes}
use tui_box.Prelude.Int.{ℤ}

-- SubscriptionFormat
pub data Format : Type 0 where
  uri_list base64 clash sing_box : Format
  other : Bytes → Format

-- Subscription; a time is an instant, by its number.
pub record Subscription : Type 0 where
  pub id : Bytes
  pub name : Bytes
  pub secret_ref : Bytes
  pub format : Format
  pub refresh_interval_seconds : ℤ
  pub last_refresh : Option ℕ
  pub last_error : Bytes
  pub refresh_token : Bytes

-- The switch over the four formats, in state.validateSubscription and app.validSubscriptionFormat.
abbrev pub is_known_format : Format → Bool
is_known_format (other s) = false
is_known_format _ = true
