-- ===== src/App/Entries.antt =====
-- internal/app/service.go: the entry of a subscription in the list, and the endpoints of a state.
use tui_box.Prelude.{
  ◌≡◌, ◌≢◌, ◌∙◌, ap, inl, inr, refl, Bool, false, List, [], ◌∷◌, ◌++◌, map, Bytes, same, not,
  length, ◌==◌, same_iff, any, All, Bool-cases, none, some, arith,
}
use tui_box.Prelude.Results.{Result, ok, ◌>>=◌, ◌>>◌, bind_ok, reject_if_ok, ok-injective}
use tui_box.Prelude.Hex.{encode_hex}
use tui_box.Domain.Checks.{Library, is_empty}
use tui_box.Domain.Types.{Endpoint}
use tui_box.Domain.Subscription.{Subscription}
use tui_box.Store.Snapshot.{Snapshot, endpoint_identity_key_bytes}
use tui_box.Store.File.{others}
use tui_box.Store.Accepted.{Distinct}
use tui_box.Subscription.Library.{Digests}
use tui_box.Subscription.Identity.{endpoint_id}
use tui_box.App.Errors.{Err, refresh_failed}
use tui_box.App.Identity.{
  or_failed, with_key, check_keyed, rekey_from, stored_key, adopt_key, ensure_endpoint_identity_key,
}
use tui_box.App.Edits.{find_subscription, change_subscription, drop_subscription}
use tui_box.App.Prepared.{unnamed}

-- The subscription `c` is the first one of the list that has the ID.
pub record IsAt (id : Bytes) (l : List Subscription) (c : Subscription) : Type 0 where
  pub before : List Subscription
  pub after : List Subscription
  pub split : l ≡ before ++ c ∷ after
  pub first : find_subscription id before ≡ none
  pub named : c.id ≡ id

pub find-IsAt :
    (id : Bytes) (l : List Subscription) (c : Subscription)
    → find_subscription id l ≡ some c
    → IsAt id l c
unfolding find_subscription
find-IsAt id [] c h = ground arith
find-IsAt id (x ∷ rest) c h = elim (Bool-cases (same x.id id)) [
  | inl it ↦
      let x_is : x ≡ c = ground arith in
      record {
        before = [];
        after = rest;
        split = ap (λ y. y ∷ rest) x_is;
        first = refl;
        named = ground (arith, (same_iff x.id id).0 it);
      }
  | inr other ↦
      let there = find-IsAt id rest c (ground arith) in
      record {
        before = x ∷ there.before;
        after = there.after;
        split = ap (λ l. x ∷ l) there.split;
        first = ground (arith, there.first);
        named = there.named;
      }
]

module _ (id : Bytes) (c : Subscription) (named : c.id ≡ id) (after : List Subscription) where
  change-at :
      (f : Subscription → Subscription) (before : List Subscription)
      → find_subscription id before ≡ none
      → change_subscription id f (before ++ c ∷ after) ≡ before ++ f c ∷ after
  unfolding find_subscription change_subscription
  change-at f [] h = rw ((same_iff c.id id).1 named) refl
  change-at f (x ∷ rest) h = ground (arith, change-at f rest)

  drop-at :
      (before : List Subscription)
      → find_subscription id before ≡ none
      → drop_subscription id (before ++ c ∷ after) ≡ before ++ after
  unfolding find_subscription drop_subscription
  drop-at [] h = rw ((same_iff c.id id).1 named) refl
  drop-at (x ∷ rest) h = ground (arith, drop-at rest)

pub change-IsAt :
    (id : Bytes) (l : List Subscription) (c : Subscription) (f : Subscription → Subscription)
    (at : IsAt id l c)
    → change_subscription id f l ≡ at.before ++ f c ∷ at.after
change-IsAt id l c f at =
    ap (change_subscription id f) at.split ∙ change-at id c at.named at.after f at.before at.first

pub drop-IsAt :
    (id : Bytes) (l : List Subscription) (c : Subscription) (at : IsAt id l c)
    → drop_subscription id l ≡ at.before ++ at.after
drop-IsAt id l c at =
    ap (drop_subscription id) at.split ∙ drop-at id c at.named at.after at.before at.first

find-others :
    (id : Bytes) (l : List Subscription)
    → All (λ j. j ≢ id) (map (λ x. x.id) l)
    → find_subscription id l ≡ none
unfolding find_subscription
find-others id [] h = refl
find-others id (x ∷ rest) h = elim (Bool-cases (same x.id id)) [
  | inl it ↦ absurd (h.0 ((same_iff x.id id).0 it))
  | inr other ↦ rw other (find-others id rest h.1)
]

pub find-drop :
    (id : Bytes) (l : List Subscription)
    → Distinct (map (λ x. x.id) l)
    → find_subscription id (drop_subscription id l) ≡ none
unfolding find_subscription drop_subscription
find-drop id [] h = refl
find-drop id (x ∷ rest) h = elim (Bool-cases (same x.id id)) [
  | inl it ↦
      let x_is : x.id ≡ id = (same_iff x.id id).0 it in
      rw it (find-others id rest (rw (← x_is) h.0))
  | inr other ↦ rw (other, find_subscription, other) (find-drop id rest h.1)
]

-- One of the endpoints belongs to the subscription.
abbrev pub has_endpoint : Bytes → List Endpoint → Bool
has_endpoint id es = any (λ e. same e.subscription_id id) es

pub none-others : (id : Bytes) (es : List Endpoint) → has_endpoint id (others id es) ≡ false
unfolding others
none-others id [] = refl
none-others id (e ∷ rest) = ground (arith, none-others id rest)

pub map-others :
    (id : Bytes) (es : List Endpoint) → map unnamed (others id es) ≡ others id (map unnamed es)
unfolding others
map-others id [] = refl
map-others id (e ∷ rest) = elim (Bool-cases (same e.subscription_id id)) [
  | inl it ↦ rw it (map-others id rest)
  | inr other ↦ rw other (ap (λ l. unnamed e ∷ l) (map-others id rest))
]

module _ (lib : Library) (d : Digests) where
  rekey_from-unnamed :
      (key : Bytes) (seen : List Bytes) (es out : List Endpoint)
      → rekey_from lib d key seen es ≡ ok out
      → map unnamed out ≡ map unnamed es
  unfolding rekey_from
  rekey_from-unnamed key seen [] out h = rw (← ok-injective h) refl
  rekey_from-unnamed key seen (e ∷ rest) out h =
      let keyed : Bytes → Endpoint = with_key lib d key e in
      let tail : Bytes → List Endpoint → Result Err (List Endpoint) =
        λ print rekeyed. ok (keyed print ∷ rekeyed) in
      let later : Bytes → Result Err (List Endpoint) =
        λ print. rekey_from lib d key ((keyed print).id ∷ seen) rest in
      let checks : Bytes → Result Err (List Endpoint) =
        λ print. check_keyed lib d seen (keyed print) >> (later print >>= tail print) in
      let (print, found, h1) = bind_ok (or_failed (endpoint_id d e)) checks h in
      let (u, passed, h2) =
        bind_ok (check_keyed lib d seen (keyed print)) (λ _. later print >>= tail print) h1 in
      let (rekeyed, is_rekeyed, h3) = bind_ok (later print) (tail print) h2 in
      rw (← ok-injective h3) (
        ap (λ l. unnamed e ∷ l)
          (rekey_from-unnamed key ((keyed print).id ∷ seen) rest rekeyed is_rekeyed))

  -- The snapshot has the subscriptions, the revision and the endpoints that the other one has, but
  -- for the endpoints' IDs.
  pub record IsSame (s s' : Snapshot) : Type 0 where
    pub subscriptions : s'.subscriptions ≡ s.subscriptions
    pub endpoints : map unnamed s'.endpoints ≡ map unnamed s.endpoints

  IsSame-given : (s s' : Snapshot) → s ≡ s' → IsSame s s'
  IsSame-given s s' h = rw (← h) (record { subscriptions = refl; endpoints = refl })

  adopt_key-IsSame :
      (candidate key : Bytes) (s s' : Snapshot)
      → adopt_key lib d candidate s ≡ ok (s', key)
      → IsSame s s'
  unfolding adopt_key
  adopt_key-IsSame candidate key s s' h =
      let with_keys : List Endpoint → Snapshot = λ rekeyed. record s {
        endpoints = rekeyed;
        settings = record (s.settings) { endpoint_identity_key = encode_hex candidate };
      } in
      let tail : List Endpoint → Result Err (Snapshot × Bytes) =
        λ rekeyed. ok (with_keys rekeyed, candidate) in
      let rekeys = rekey_from lib d candidate [] s.endpoints in
      let (fits, h1) =
        reject_if_ok (not (length candidate == endpoint_identity_key_bytes)) refresh_failed
          (rekeys >>= tail) h in
      let (rekeyed, is_rekeyed, h2) = bind_ok rekeys tail h1 in
      let now_is : with_keys rekeyed ≡ s' = ap (λ x. x.0) (ok-injective h2) in
      rw (← now_is) (record {
        subscriptions = refl;
        endpoints = rekey_from-unnamed candidate [] s.endpoints rekeyed is_rekeyed;
      })

  pub ensure_endpoint_identity_key-IsSame :
      (candidate key : Bytes) (s s' : Snapshot)
      → ensure_endpoint_identity_key lib d candidate s ≡ ok (s', key)
      → IsSame s s'
  unfolding ensure_endpoint_identity_key adopt_key
  ensure_endpoint_identity_key-IsSame candidate key s s' h =
      elim (Bool-cases (is_empty s.settings.endpoint_identity_key)) [
        | inl unset ↦
            adopt_key-IsSame candidate key s s' (rw (unset, ensure_endpoint_identity_key) at h)
        | inr there ↦
            let (k, found, same_one) =
              bind_ok (stored_key lib d s.settings.endpoint_identity_key) (λ k. ok (s, k))
                (rw (there, ensure_endpoint_identity_key) at h) in
            IsSame-given s s' (ap (λ x. x.0) (ok-injective same_one))
      ]
