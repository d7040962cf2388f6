-- ===== src/App/Prepared.antt =====
-- internal/app/service.go: the endpoints of prepareEndpoints.
use tui_box.Prelude.{
  ◌≡◌, refl, ap, true, false, not, ◌||◌, none, some, List, [], ◌∷◌, map, Bytes, same, arith,
}
use tui_box.Prelude.Results.{
  Result, ok, reject_if, ◌>>=◌, ◌>>◌, bind_ok, reject_if_ok, ok-injective,
}
use tui_box.TerminalText.{is_blank}
use tui_box.Domain.Checks.{Library, Check, is_empty}
use tui_box.Domain.Types.{Endpoint}
use tui_box.Domain.Endpoint.{validate}
use tui_box.Domain.Accepted.{validate_iff}
use tui_box.Store.Snapshot.{holds, is_ok}
use tui_box.Subscription.Library.{Digests}
use tui_box.App.Errors.{Err, refresh_failed}
use tui_box.App.Identity.{
  with_key, check_keyed, prepare_from, prepare_endpoints, parsed_endpoints_ok,
}

-- An endpoint without its ID.
abbrev pub unnamed : Endpoint → Endpoint
unnamed e = record e { id = [] }

visible-not_empty : (s : Bytes) → is_blank s ≡ false → is_empty s ≡ false
unfolding is_blank
visible-not_empty [] h = ground arith
visible-not_empty (c ∷ s) h = refl

is_ok-none : (c : Check) → is_ok c ≡ true → c ≡ none
is_ok-none none h = refl
is_ok-none (some e) h = ground arith

module _ (lib : Library) (d : Digests) where
  pub valid-named : (e : Endpoint) → is_ok (validate lib e) ≡ true → is_empty e.id ≡ false
  valid-named e h =
      visible-not_empty e.id
        (((validate_iff lib e).0 (is_ok-none (validate lib e) h)).texts.0.visible refl)

  prepare_from-checked :
      (key id : Bytes) (seen : List Bytes) (es out : List Endpoint)
      → prepare_from lib d key id seen es ≡ ok out
      → (parsed_endpoints_ok lib d id seen out ≡ true) × (map unnamed out ≡ map unnamed es)
  unfolding prepare_from check_keyed parsed_endpoints_ok
  prepare_from-checked key id seen [] out h = rw (← ok-injective h) (refl, refl)
  prepare_from-checked key id seen (e ∷ rest) out h =
      let keyed = with_key lib d key e e.id in
      let tail : List Endpoint → Result Err (List Endpoint) = λ scoped. ok (keyed ∷ scoped) in
      let later = prepare_from lib d key id (keyed.id ∷ seen) rest in
      let checks = check_keyed lib d seen keyed >> (later >>= tail) in
      let (owner, h1) =
        reject_if_ok (not (same e.subscription_id id)) refresh_failed
          (reject_if (not (is_ok (validate lib e))) refresh_failed >> checks) h in
      let (valid_e, h2) = reject_if_ok (not (is_ok (validate lib e))) refresh_failed checks h1 in
      let (fits, h3) =
        reject_if_ok (not (is_ok (validate lib keyed)) || holds seen keyed.id) refresh_failed
          (later >>= tail) h2 in
      let (scoped, later_ok, h4) = bind_ok later tail h3 in
      let (checked, kept) = prepare_from-checked key id (keyed.id ∷ seen) rest scoped later_ok in
      rw (← ok-injective h4) (ground (arith, valid-named keyed), ap (λ l. unnamed e ∷ l) kept)

  -- prepareEndpoints on success: the endpoints are the given ones in their order, but for their IDs,
  -- and validateParsedEndpoints accepts them: each is valid and belongs to the subscription, and no
  -- ID is empty or there twice.
  pub prepare_endpoints_lem :
      (key id : Bytes) (es out : List Endpoint)
      → prepare_endpoints lib d key id es ≡ ok out
      → (parsed_endpoints_ok lib d id [] out ≡ true) × (map unnamed out ≡ map unnamed es)
  unfolding prepare_endpoints
  prepare_endpoints_lem key id es out h = prepare_from-checked key id [] es out (ground arith)
