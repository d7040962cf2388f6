-- ===== src/Store/Accepted.antt =====
-- internal/state/store.go: the valid snapshots, stated without the order of the tests.
use tui_box.Prelude.{
  ℕ, ◌≤◌, ◌≡◌, ◌≢◌, ◌↔◌, refl, Bool, true, false, not, ◌&&◌, List, [], ◌∷◌, map, Bytes, same_iff,
  length, all, All, All-map, all_iff, arith, some, ◌⊎◌, inl, inr, Option-cases,
}
use tui_box.Prelude.Int.{pos, int_eq, InRange}
use tui_box.Prelude.Hex.{decode_hex}
use tui_box.TerminalText.{valid, is_blank}
use tui_box.TerminalText.Utf8.{valid_string}
use tui_box.Domain.Checks.{Library}
use tui_box.Domain.Types.{Endpoint}
use tui_box.Domain.Endpoint.{validate}
use tui_box.Domain.Accepted.{IsValidEndpoint, validate_iff}
use tui_box.Domain.OptionsLaws.{outside_iff}
use tui_box.Domain.Subscription.{Subscription, is_known_format}
use tui_box.Store.Snapshot.{
  Snapshot, holds, is_ok, valid_identity_key, valid_state_string, valid_subscription,
  valid_subscriptions, valid_endpoints, valid_snapshot,
}

-- No key is in the list twice.
abbrev pub Distinct : List Bytes → Type 0
Distinct [] = Unit
Distinct (k ∷ ks) = All (λ j. j ≢ k) ks × Distinct ks

-- The test of the loops: no key is twice in the list, nor in `seen`.
unfoldable pub distinct_from : List Bytes → List Bytes → Bool
distinct_from seen [] = true
distinct_from seen (k ∷ ks) = not (holds seen k) && distinct_from (k ∷ seen) ks

abbrev pub Missing : List Bytes → Bytes → Type 0
Missing seen k = holds seen k ≡ false

Missing-cons_iff :
    (seen : List Bytes) (k j : Bytes) → Missing (k ∷ seen) j ↔ (j ≢ k) × Missing seen j
unfolding holds
Missing-cons_iff seen k j = (
  λ h. (λ e. ground (arith, (same_iff j k).1 e), ground arith),
  λ h. ground (arith, (same_iff j k).0, h.0),
)

pub distinct_from_iff :
    (seen ks : List Bytes) → (distinct_from seen ks ≡ true) ↔ All (Missing seen) ks × Distinct ks
unfolding distinct_from
distinct_from_iff seen [] = (λ h. (tt, tt), λ h. refl)
distinct_from_iff seen (k ∷ ks) =
    let rest = distinct_from_iff (k ∷ seen) ks in
    (
      λ h.
          let (missing, distinct) = rest.0 (ground arith) in
          (
            (ground arith, All-map ks (λ j m. ((Missing-cons_iff seen k j).0 m).1) missing),
            (All-map ks (λ j m. ((Missing-cons_iff seen k j).0 m).0) missing, distinct),
          ),
      λ h.
          let later : distinct_from (k ∷ seen) ks ≡ true = rest.1 (zip_all ks h.1.0 h.0.1, h.1.1) in
          ground (arith, h.0.0),
    )
  where
    zip_all :
        (js : List Bytes)
        → All (λ j. j ≢ k) js
        → All (Missing seen) js
        → All (Missing (k ∷ seen)) js
    zip_all [] a b = tt
    zip_all (j ∷ js) a b = ((Missing-cons_iff seen k j).1 (a.0, b.0), zip_all js a.1 b.1)

pub no-Missing : (ks : List Bytes) → All (Missing []) ks
unfolding holds
no-Missing [] = tt
no-Missing (k ∷ ks) = (refl, no-Missing ks)

module _ (lib : Library) where
  -- A text that validStateString accepts.
  pub record IsText (value : Bytes) (max_bytes : ℕ) (is_required : Bool) : Type 0 where
    pub visible : is_required ≡ true → is_blank value ≡ false
    pub fits : length value ≤ max_bytes
    pub safe : valid lib.tables value ≡ true

  pub record IsKept (s : Subscription) : Type 0 where
    pub id : IsText s.id 128 true
    pub name : IsText s.name 256 true
    pub secret_ref : IsText s.secret_ref 1024 true
    pub last_error : IsText s.last_error 4096 false
    pub refresh_token : IsText s.refresh_token 128 false
    pub interval : InRange 0 31_622_400 s.refresh_interval_seconds
    pub format : is_known_format s.format ≡ true

  -- A key is not set, or is 32 bytes in hexadecimal digits.
  abbrev pub IsKey : Bytes → Type 0
  IsKey value = (value ≡ []) ⊎ ((key : Bytes) × (decode_hex value ≡ some key) × (length key ≡ 32))

  abbrev pub ids : Snapshot → List Bytes
  ids s = map (λ x. x.id) s.subscriptions

  -- An endpoint that is valid and belongs to one of the subscriptions.
  abbrev pub IsOwned : List Bytes → Endpoint → Type 0
  IsOwned keys e = IsValidEndpoint lib e × (holds keys e.subscription_id ≡ true)

  pub record IsValidSnapshot (s : Snapshot) : Type 0 where
    pub schema : int_eq s.schema_version (pos 1) ≡ true
    pub few_subscriptions : length s.subscriptions ≤ 1024
    pub few_endpoints : length s.endpoints ≤ 10_000
    pub key : IsKey s.settings.endpoint_identity_key
    pub subscriptions : All IsKept s.subscriptions
    pub subscription_ids : Distinct (ids s)
    pub endpoints : All (IsOwned (ids s)) s.endpoints
    pub endpoint_ids : Distinct (map (λ x. x.id) s.endpoints)

  valid-valid_string : (s : Bytes) → valid lib.tables s ≡ true → valid_string s ≡ true
  unfolding valid
  valid-valid_string s h = ground arith

  IsText-iff :
      (value : Bytes) (max_bytes : ℕ) (is_required : Bool)
      → (valid_state_string lib value max_bytes is_required ≡ true)
        ↔ IsText value max_bytes is_required
  unfolding valid_state_string
  IsText-iff value max_bytes is_required =
      (λ h. ground arith, λ t. ground (arith, t.visible, valid-valid_string value t.safe))

  IsKept-iff : (s : Subscription) → (valid_subscription lib s ≡ true) ↔ IsKept s
  unfolding valid_subscription
  IsKept-iff s = (
    λ h. record {
      id = (IsText-iff s.id 128 true).0 (ground arith);
      name = (IsText-iff s.name 256 true).0 (ground arith);
      secret_ref = (IsText-iff s.secret_ref 1024 true).0 (ground arith);
      last_error = (IsText-iff s.last_error 4096 false).0 (ground arith);
      refresh_token = (IsText-iff s.refresh_token 128 false).0 (ground arith);
      interval = (outside_iff 0 31_622_400 s.refresh_interval_seconds).0 (ground arith);
      format = ground arith;
    },
    λ k. ground (
      arith,
      (IsText-iff s.id 128 true).1 k.id,
      (IsText-iff s.name 256 true).1 k.name,
      (IsText-iff s.secret_ref 1024 true).1 k.secret_ref,
      (IsText-iff s.last_error 4096 false).1 k.last_error,
      (IsText-iff s.refresh_token 128 false).1 k.refresh_token,
      (outside_iff 0 31_622_400 s.refresh_interval_seconds).1 k.interval,
    ),
  )

  subscriptions_loop :
      (seen : List Bytes) (ss : List Subscription)
      → valid_subscriptions lib seen ss
        ≡ (all (valid_subscription lib) ss && distinct_from seen (map (λ x. x.id) ss))
  unfolding valid_subscriptions distinct_from
  subscriptions_loop seen [] = refl
  subscriptions_loop seen (s ∷ ss) = ground (arith, subscriptions_loop (s.id ∷ seen) ss)

  abbrev owned : List Bytes → Endpoint → Bool
  owned keys e = is_ok (validate lib e) && holds keys e.subscription_id

  endpoints_loop :
      (keys seen : List Bytes) (es : List Endpoint)
      → valid_endpoints lib keys seen es
        ≡ (all (owned keys) es && distinct_from seen (map (λ x. x.id) es))
  unfolding valid_endpoints distinct_from
  endpoints_loop keys seen [] = refl
  endpoints_loop keys seen (e ∷ es) = ground (arith, endpoints_loop keys (e.id ∷ seen) es)

  owned_iff : (keys : List Bytes) (e : Endpoint) → (owned keys e ≡ true) ↔ IsOwned keys e
  owned_iff keys e = (
    λ h. ((validate_iff lib e).0 (ground arith), ground arith),
    λ o. ground (arith, (validate_iff lib e).1 o.0, o.1),
  )

  key_iff : (value : Bytes) → (valid_identity_key value ≡ true) ↔ IsKey value
  unfolding valid_identity_key
  key_iff [] = (λ h. inl refl, λ k. refl)
  key_iff (a ∷ s) = (
    λ h. elim (Option-cases (decode_hex (a ∷ s))) [
      | inl none_left ↦ cc
      | inr (key, e) ↦ inr (key, e, ground arith)
    ],
    λ k. elim k [ inl empty ↦ cc | inr (key, e, size) ↦ rw (e, valid_identity_key) (ground arith) ],
  )

  -- validateSnapshot returns nil exactly for the valid snapshots: of the current schema version,
  -- within the limits, with an identity key that is not set or has 32 bytes, valid subscriptions
  -- and endpoints, no ID twice among either, and no endpoint without its subscription.
  pub valid_snapshot_iff : (s : Snapshot) → (valid_snapshot lib s ≡ true) ↔ IsValidSnapshot s
  unfolding valid_snapshot
  valid_snapshot_iff s =
      let subs = subscriptions_loop [] s.subscriptions in
      let ends = endpoints_loop (ids s) [] s.endpoints in
      let sub_ids = distinct_from_iff [] (ids s) in
      let end_ids = distinct_from_iff [] (map (λ x. x.id) s.endpoints) in
      (
        λ h. record {
          schema = ground arith;
          few_subscriptions = ground arith;
          few_endpoints = ground arith;
          key = (key_iff s.settings.endpoint_identity_key).0 (ground arith);
          subscriptions =
              (all_iff (valid_subscription lib) IsKept-iff s.subscriptions).0 (ground arith);
          subscription_ids = (sub_ids.0 (ground arith)).1;
          endpoints = (all_iff (owned (ids s)) (owned_iff (ids s)) s.endpoints).0 (ground arith);
          endpoint_ids = (end_ids.0 (ground arith)).1;
        },
        λ v. ground (
          arith,
          (key_iff s.settings.endpoint_identity_key).1 v.key,
          (all_iff (valid_subscription lib) IsKept-iff s.subscriptions).1 v.subscriptions,
          sub_ids.1 (no-Missing (ids s), v.subscription_ids),
          (all_iff (owned (ids s)) (owned_iff (ids s)) s.endpoints).1 v.endpoints,
          end_ids.1 (no-Missing (map (λ x. x.id) s.endpoints), v.endpoint_ids),
        ),
      )
