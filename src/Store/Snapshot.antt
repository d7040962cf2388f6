-- ===== src/Store/Snapshot.antt =====
-- internal/state/store.go: the snapshot that the file holds, and its validation.
use tui_box.Prelude.{
  ℕ, Bool, true, false, not, ◌&&◌, ◌||◌, none, some, List, [], ◌∷◌, map, Bytes, same, leb, ◌==◌,
  length, any, if◌then◌else◌,
}
use tui_box.Prelude.Int.{ℤ, pos, int_eq, outside}
use tui_box.Prelude.Hex.{decode_hex}
use tui_box.TerminalText.{valid, is_blank}
use tui_box.TerminalText.Utf8.{valid_string}
use tui_box.Domain.Checks.{Check, Library}
use tui_box.Domain.Types.{Endpoint}
use tui_box.Domain.Options.{max_credential_length}
use tui_box.Domain.Endpoint.{validate, max_id_length, max_name_length}
use tui_box.Domain.Subscription.{Subscription, is_known_format}

-- Settings
pub record Settings : Type 0 where
  pub telemetry_enabled : Bool
  pub endpoint_identity_key : Bytes

-- Snapshot; a revision is a uint64.
pub record Snapshot : Type 0 where
  pub schema_version : ℤ
  pub revision : ℕ
  pub subscriptions : List Subscription
  pub endpoints : List Endpoint
  pub settings : Settings

abbrev pub current_schema_version : ℤ
current_schema_version = pos 1

abbrev pub max_state_subscriptions : ℕ
max_state_subscriptions = 1024

abbrev pub max_state_endpoints : ℕ
max_state_endpoints = 10_000

abbrev pub max_last_error_bytes : ℕ
max_last_error_bytes = 4096

abbrev pub max_refresh_interval : ℕ
max_refresh_interval = 31_622_400

abbrev pub endpoint_identity_key_bytes : ℕ
endpoint_identity_key_bytes = 32

abbrev pub max_revision : ℕ
max_revision = 18_446_744_073_709_551_615

-- Snapshot{SchemaVersion: CurrentSchemaVersion}
unfoldable pub new_snapshot : Snapshot
new_snapshot = record {
  schema_version = current_schema_version;
  revision = 0;
  subscriptions = [];
  endpoints = [];
  settings = record { telemetry_enabled = false; endpoint_identity_key = [] };
}

-- A set of strings, as the keys of a map.
unfoldable pub holds : List Bytes → Bytes → Bool
holds keys k = any (same k) keys

abbrev pub is_ok : Check → Bool
is_ok none = true
is_ok (some e) = false

-- validEndpointIdentityKey
unfoldable pub valid_identity_key : Bytes → Bool
valid_identity_key [] = true
valid_identity_key (a ∷ s) = elim (decode_hex (a ∷ s)) [
  | none ↦ false
  | some key ↦ length key == endpoint_identity_key_bytes
]

module _ (lib : Library) where
  -- validStateString
  unfoldable pub valid_state_string : Bytes → ℕ → Bool → Bool
  valid_state_string value max_bytes is_required =
      if is_required && is_blank value
      then false
      else if not (valid_string value) || not (leb (length value) max_bytes)
      then false
      else valid lib.tables value

  -- validateSubscription
  unfoldable pub valid_subscription : Subscription → Bool
  unfolding valid_state_string
  valid_subscription s =
      if not (valid_state_string s.id max_id_length true)
        || not (valid_state_string s.name max_name_length true)
        || not (valid_state_string s.secret_ref max_credential_length true)
        || not (valid_state_string s.last_error max_last_error_bytes false)
        || not (valid_state_string s.refresh_token max_id_length false)
      then false
      else if outside 0 max_refresh_interval s.refresh_interval_seconds
      then false
      else is_known_format s.format

  -- The first loop of validateSnapshot; `seen` holds the keys of subscriptionIDs.
  unfoldable pub valid_subscriptions : List Bytes → List Subscription → Bool
  valid_subscriptions seen [] = true
  valid_subscriptions seen (s ∷ rest) =
      valid_subscription s && not (holds seen s.id) && valid_subscriptions (s.id ∷ seen) rest

  -- The second loop.
  unfoldable pub valid_endpoints : List Bytes → List Bytes → List Endpoint → Bool
  valid_endpoints ids seen [] = true
  valid_endpoints ids seen (e ∷ rest) =
      is_ok (validate lib e)
      && holds ids e.subscription_id
      && not (holds seen e.id)
      && valid_endpoints ids (e.id ∷ seen) rest

  -- validateSnapshot
  unfoldable pub valid_snapshot : Snapshot → Bool
  unfolding valid_subscriptions valid_endpoints valid_identity_key
  valid_snapshot s =
      if not (int_eq s.schema_version current_schema_version)
        || not (leb (length s.subscriptions) max_state_subscriptions)
        || not (leb (length s.endpoints) max_state_endpoints)
        || not (valid_identity_key s.settings.endpoint_identity_key)
      then false
      else valid_subscriptions [] s.subscriptions
        && valid_endpoints (map (λ x. x.id) s.subscriptions) [] s.endpoints
