-- ===== src/App/Collected.antt =====
-- internal/subscription/parser.go and internal/app/service.go: the parser's endpoints under the
-- service's checks.
use tui_box.Prelude.{
  ◌≡◌, refl, sym, ap, subst, ◌∙◌, true, false, not, Option, none, some, List, [], ◌∷◌, ◌++◌, Bytes,
  same, same_refl, if_both, option_both, some-injective, arith,
}
use tui_box.Prelude.Int.{ℤ}
use tui_box.Domain.Checks.{Library}
use tui_box.Domain.Types.{Endpoint}
use tui_box.Domain.Endpoint.{validate}
use tui_box.Domain.Subscription.{Format}
use tui_box.Store.Snapshot.{holds, is_ok}
use tui_box.Subscription.Library.{Digests}
use tui_box.Subscription.Identity.{normalize_host, normalize_endpoint, endpoint_id}
use tui_box.Subscription.Parser.{
  Warning, Collected, add_warning, named, add_identified, add_normal, add_normalized, add_endpoint,
  Collects, begin, adds, warns,
}
use tui_box.App.Identity.{parsed_endpoints_ok}
use tui_box.App.Prepared.{valid-named}

-- The keys of `seen` once the loop of validateParsedEndpoints has passed the endpoints.
unfoldable pub seen_after : List Bytes → List Endpoint → List Bytes
seen_after seen [] = seen
seen_after seen (e ∷ es) = seen_after (e.id ∷ seen) es

module _ (lib : Library) (d : Digests) (id : Bytes) where
  checked-append :
      (seen : List Bytes) (es : List Endpoint) (e : Endpoint)
      → parsed_endpoints_ok lib d id seen es ≡ true
      → same e.subscription_id id ≡ true
      → is_ok (validate lib e) ≡ true
      → holds (seen_after seen es) e.id ≡ false
      → parsed_endpoints_ok lib d id seen (es ++ e ∷ []) ≡ true
  unfolding parsed_endpoints_ok seen_after
  checked-append seen [] e h ours v new = ground (arith, valid-named lib d e v)
  checked-append seen (x ∷ es) e h ours v new = ground (arith, checked-append (x.id ∷ seen) es e)

  seen_after-append :
      (seen : List Bytes) (es : List Endpoint) (e : Endpoint)
      → seen_after seen (es ++ e ∷ []) ≡ e.id ∷ seen_after seen es
  unfolding seen_after
  seen_after-append seen [] e = refl
  seen_after-append seen (x ∷ es) e = seen_after-append (x.id ∷ seen) es e

  pub record IsCollected (c : Collected) : Type 0 where
    pub checked : parsed_endpoints_ok lib d id [] c.result.endpoints ≡ true
    pub seen_ids : c.seen ≡ seen_after [] c.result.endpoints

  add_identified-IsCollected :
      (entry : ℤ) (e : Endpoint) (c : Collected)
      → same e.subscription_id id ≡ true
      → IsCollected c
      → IsCollected (add_identified lib d id entry e c)
  unfolding add_identified add_warning
  add_identified-IsCollected entry e c ours i =
      if_both IsCollected (not (is_ok (validate lib e)))
        (λ bad. record { checked = i.checked; seen_ids = i.seen_ids })
        (λ good.
          if_both IsCollected (holds c.seen e.id) (λ duplicate. i)
            (λ new. record {
              checked =
                  checked-append [] c.result.endpoints e i.checked ours (ground arith)
                    (subst (λ s. holds s e.id ≡ false) i.seen_ids new);
              seen_ids =
                  ap (λ s. e.id ∷ s) i.seen_ids ∙ sym (seen_after-append [] c.result.endpoints e);
            }))

  add_normal-IsCollected :
      (entry : ℤ) (e : Endpoint) (o : Option Bytes) (c : Collected)
      → same e.subscription_id id ≡ true
      → IsCollected c
      → IsCollected (add_normal lib d id entry e o c)
  unfolding add_normal add_warning
  add_normal-IsCollected entry e none c ours i = record {
    checked = i.checked;
    seen_ids = i.seen_ids;
  }
  add_normal-IsCollected entry e (some fingerprint) c ours i =
      add_identified-IsCollected entry (record e { id = fingerprint }) c ours i

  abbrev Owned : Endpoint → Option Endpoint → Type 0
  Owned e o = (e' : Endpoint) → o ≡ some e' → e'.subscription_id ≡ e.subscription_id

  nothing-Owned : (e : Endpoint) → Owned e none
  nothing-Owned e e' h = ground arith

  normalize_endpoint-Owned : (e : Endpoint) → Owned e (normalize_endpoint d e)
  unfolding normalize_endpoint
  normalize_endpoint-Owned e =
      option_both (Owned e) (normalize_host d e.host) (nothing-Owned e) (λ host.
        option_both (Owned e) (normalize_host d e.tls.server_name) (nothing-Owned e) (λ server_name.
          option_both (Owned e) (normalize_host d e.transport.host) (nothing-Owned e)
            (λ h e' same_one. ap (λ x. x.subscription_id) (sym (some-injective _ _ same_one)))))

  begin-IsCollected :
      (format : Format)
      → IsCollected
          (record { result = record { format = format; endpoints = []; warnings = [] }; seen = [] })
  unfolding seen_after parsed_endpoints_ok
  begin-IsCollected format = record { checked = refl; seen_ids = refl }

  add_normalized-IsCollected :
      (entry : ℤ) (o : Option Endpoint) (c : Collected)
      → ((e : Endpoint) → o ≡ some e → e.subscription_id ≡ id)
      → IsCollected c
      → IsCollected (add_normalized lib d id entry o c)
  unfolding add_warning
  add_normalized-IsCollected entry none c ours i = record {
    checked = i.checked;
    seen_ids = i.seen_ids;
  }
  add_normalized-IsCollected entry (some e) c ours i =
      add_normal-IsCollected entry e (endpoint_id d e) c (rw (ours e refl) (same_refl id)) i

  add_endpoint-IsCollected :
      (entry : ℤ) (e : Endpoint) (c : Collected)
      → IsCollected c
      → IsCollected (add_endpoint lib d id entry e c)
  unfolding add_endpoint
  add_endpoint-IsCollected entry e c i =
      add_normalized-IsCollected entry (normalize_endpoint d (named lib d id e)) c
        (normalize_endpoint-Owned (named lib d id e)) i

  add_warning-IsCollected :
      (w : Warning) (c : Collected) → IsCollected c → IsCollected (add_warning lib d w c)
  unfolding add_warning
  add_warning-IsCollected w c i = record { checked = i.checked; seen_ids = i.seen_ids }

  Collects-IsCollected :
      (format : Format) {c : Collected} → Collects lib d id format c → IsCollected c
  Collects-IsCollected format begin = begin-IsCollected format
  Collects-IsCollected format (adds {c} entry e r) =
      add_endpoint-IsCollected entry e c (Collects-IsCollected format r)
  Collects-IsCollected format (warns {c} w r) =
      add_warning-IsCollected w c (Collects-IsCollected format r)

  -- However the functions that parse a format call addEndpoint and add warnings: the endpoints that
  -- they collect, once their IDs are checked, pass validateParsedEndpoints of the service, so each is
  -- valid, belongs to the subscription, and has an ID of its own that is not empty.
  pub collected_endpoints_checked :
      (format : Format) (c : Collected)
      → Collects lib d id format c
      → parsed_endpoints_ok lib d id [] c.result.endpoints ≡ true
  collected_endpoints_checked format c run = (Collects-IsCollected format run).checked
