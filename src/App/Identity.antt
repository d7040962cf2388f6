-- ===== src/App/Identity.antt =====
-- internal/app/service.go: the public IDs of endpoints.
use tui_box.Prelude.{
  Bool, true, not, ◌&&◌, ◌||◌, Option, none, some, List, [], ◌∷◌, ◌++◌, Bytes, bytes, same, ◌==◌,
  length, if◌then◌else◌,
}
use tui_box.Prelude.Results.{Result, ok, err, ◌>>=◌, ◌>>◌, reject_if}
use tui_box.Prelude.Hex.{encode_hex, decode_hex}
use tui_box.Domain.Checks.{Library, is_empty}
use tui_box.Domain.Types.{Endpoint}
use tui_box.Domain.Endpoint.{validate}
use tui_box.Store.Snapshot.{Snapshot, holds, is_ok, endpoint_identity_key_bytes}
use tui_box.Subscription.Library.{Digests}
use tui_box.Subscription.Identity.{endpoint_id}
use tui_box.App.Errors.{Err, refresh_failed}

-- `element, err := …` on an optional value.
abbrev pub or_failed {ℓ} : {A : Type ℓ} → Option A → Result Err A
or_failed none = err refresh_failed
or_failed (some a) = ok a

module _ (lib : Library) (d : Digests) where
  -- keyedEndpointID
  unfoldable pub keyed_endpoint_id : Bytes → Bytes → Bytes → Bytes
  keyed_endpoint_id key subscription_id fingerprint = encode_hex (
      d.hmac key
        (bytes "tuibox-endpoint-public-v1" ++ (0 ∷ (subscription_id ++ (0 ∷ fingerprint)))))

  abbrev pub with_key : Bytes → Endpoint → Bytes → Endpoint
  with_key key e fingerprint = record e { id = keyed_endpoint_id key e.subscription_id fingerprint }

  -- What the loops test of an endpoint with its new ID.
  unfoldable pub check_keyed : List Bytes → Endpoint → Result Err (Unit {0})
  check_keyed seen e = reject_if (not (is_ok (validate lib e)) || holds seen e.id) refresh_failed

  -- The loop of prepareEndpoints.
  unfoldable pub prepare_from :
      Bytes → Bytes → List Bytes → List Endpoint → Result Err (List Endpoint)
  unfolding check_keyed
  prepare_from key id seen [] = ok []
  prepare_from key id seen (e ∷ rest) =
      let keyed = with_key key e e.id in
      let later = prepare_from key id (keyed.id ∷ seen) rest in
      do
        reject_if (not (same e.subscription_id id)) refresh_failed
        reject_if (not (is_ok (validate lib e))) refresh_failed
        check_keyed seen keyed
        scoped ← later
        ok (keyed ∷ scoped)

  -- prepareEndpoints
  unfoldable pub prepare_endpoints : Bytes → Bytes → List Endpoint → Result Err (List Endpoint)
  unfolding prepare_from
  prepare_endpoints key id es =
      if not (length key == endpoint_identity_key_bytes)
      then err refresh_failed
      else prepare_from key id [] es

  -- The loop of ensureEndpointIdentityKey, and that of loadEndpointSnapshot.
  unfoldable pub rekey_from : Bytes → List Bytes → List Endpoint → Result Err (List Endpoint)
  unfolding check_keyed
  rekey_from key seen [] = ok []
  rekey_from key seen (e ∷ rest) = do
    fingerprint ← or_failed (endpoint_id d e)
    check_keyed seen (with_key key e fingerprint)
    rekeyed ← rekey_from key ((with_key key e fingerprint).id ∷ seen) rest
    ok (with_key key e fingerprint ∷ rekeyed)

  -- The key that the settings hold.
  unfoldable pub stored_key : Bytes → Result Err Bytes
  stored_key value = do
    key ← or_failed (decode_hex value)
    reject_if (not (length key == endpoint_identity_key_bytes)) refresh_failed
    ok key

  -- A new key; it re-keys the endpoints that are there.
  unfoldable pub adopt_key : Bytes → Snapshot → Result Err (Snapshot × Bytes)
  unfolding rekey_from
  adopt_key candidate s = do
    reject_if (not (length candidate == endpoint_identity_key_bytes)) refresh_failed
    rekeyed ← rekey_from candidate [] s.endpoints
    ok (
      record s {
        endpoints = rekeyed;
        settings = record (s.settings) { endpoint_identity_key = encode_hex candidate };
      },
      candidate,
    )

  -- ensureEndpointIdentityKey: the snapshot as it leaves it, and the key.
  unfoldable pub ensure_endpoint_identity_key : Bytes → Snapshot → Result Err (Snapshot × Bytes)
  unfolding stored_key adopt_key
  ensure_endpoint_identity_key candidate s =
      if is_empty s.settings.endpoint_identity_key
      then adopt_key candidate s
      else stored_key s.settings.endpoint_identity_key >>= λ key. ok (s, key)

  -- validateParsedEndpoints returns nil.
  unfoldable pub parsed_endpoints_ok : Bytes → List Bytes → List Endpoint → Bool
  parsed_endpoints_ok id seen [] = true
  parsed_endpoints_ok id seen (e ∷ rest) =
      same e.subscription_id id
      && not (is_empty e.id)
      && is_ok (validate lib e)
      && not (holds seen e.id)
      && parsed_endpoints_ok id (e.id ∷ seen) rest
