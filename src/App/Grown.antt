-- ===== src/App/Grown.antt =====
-- internal/app/service.go: what the callbacks that store parsed endpoints make of a snapshot.
use tui_box.Prelude.{
  ℕ, ◌≡◌, ap, sym, subst, inl, inr, ◌∙◌, true, false, none, some, List, [], ◌∷◌, ◌++◌, map, Bytes,
  length, Option-cases, arith,
}
use tui_box.Prelude.Results.{Result, ok, Result-cases, ok-injective}
use tui_box.Domain.Checks.{Library}
use tui_box.Domain.Types.{Endpoint}
use tui_box.Domain.Subscription.{Subscription}
use tui_box.Store.Snapshot.{Snapshot}
use tui_box.Store.File.{others}
use tui_box.Subscription.Library.{Digests}
use tui_box.Subscription.Parser.{Parsed}
use tui_box.App.Errors.{Err}
use tui_box.App.Identity.{parsed_endpoints_ok, prepare_endpoints, ensure_endpoint_identity_key}
use tui_box.App.Edits.{
  find_subscription, change_subscription, refreshed, still_ours, with_prepared, add_edit,
  commit_refresh,
}
use tui_box.App.Prepared.{unnamed, prepare_endpoints_lem}
use tui_box.App.Entries.{
  IsAt, find-IsAt, change-IsAt, has_endpoint, none-others, map-others, IsSame,
  ensure_endpoint_identity_key-IsSame,
}
use tui_box.App.Edited.{Gives, subscriptions_by, endpoints_by, result_by, IsOurs, found-IsOurs}

module _ (lib : Library) (d : Digests) where
  -- The list is the old one, with other IDs at most, and then the parsed endpoints under the IDs
  -- that they got; these pass the service's check, and are counted.
  pub record IsGrown (id : Bytes) (old parsed now : List Endpoint) (count : ℕ) : Type 0 where
    pub kept : List Endpoint
    pub prepared : List Endpoint
    pub now_is : now ≡ kept ++ prepared
    pub kept_are : map unnamed kept ≡ map unnamed old
    pub prepared_are : map unnamed prepared ≡ map unnamed parsed
    pub checked : parsed_endpoints_ok lib d id [] prepared ≡ true
    pub counted : count ≡ length prepared

  -- After an addition.
  pub record IsAppended (sub : Subscription) (parsed : Parsed) (s s' : Snapshot) (count : ℕ)
      : Type 0 where
    pub missing : find_subscription sub.id s.subscriptions ≡ none
    pub subscriptions : s'.subscriptions ≡ s.subscriptions ++ sub ∷ []
    pub endpoints : IsGrown sub.id s.endpoints parsed.endpoints s'.endpoints count

  -- After a refresh: the subscription's entry is the new one, and its endpoints are the parsed ones.
  pub record IsReplaced (id secret_ref token : Bytes) (now : ℕ) (parsed : Parsed) (s s' : Snapshot)
      (count : ℕ) : Type 0 where
    pub old : Subscription
    pub ours : IsOurs secret_ref token old
    pub at : IsAt id s.subscriptions old
    pub subscriptions :
        s'.subscriptions
        ≡ at.before
          ++ record old {
            format = parsed.format;
            last_refresh = some now;
            last_error = [];
            refresh_token = [];
          }
            ∷ at.after
    pub endpoints : IsGrown id (others id s.endpoints) parsed.endpoints s'.endpoints count
    pub none_left : has_endpoint id endpoints.kept ≡ false

  module _ (candidate : Bytes) where
    -- What withPrepared made.
    record IsPrepared (id : Bytes) (es : List Endpoint) (s s' : Snapshot) (prepared : List Endpoint)
        : Type 0 where
      pub same_one : IsSame lib d s s'
      pub prepared_are : map unnamed prepared ≡ map unnamed es
      pub checked : parsed_endpoints_ok lib d id [] prepared ≡ true

    with_prepared-IsPrepared :
        (id : Bytes) (es : List Endpoint) (s s' : Snapshot) (prepared : List Endpoint)
        → with_prepared lib d candidate id es s ≡ ok (s', prepared)
        → IsPrepared id es s s' prepared
    unfolding with_prepared
    with_prepared-IsPrepared id es s s' prepared h =
        elim (Result-cases (ensure_endpoint_identity_key lib d candidate s)) [
          | inl (e, failed) ↦ absurd (ground arith)
          | inr ((u, key), ensured) ↦ elim (Result-cases (prepare_endpoints lib d key id es)) [
            | inl (e, failed) ↦ absurd (ground arith)
            | inr (made, prepares) ↦
                let given : Path (Result Err (Snapshot × List Endpoint)) (ok (u, made))
                    (ok (s', prepared)) =
                  rw (ensured, with_prepared, prepares) at h in
                let same_ones = ok-injective given in
                let (checked, prepared_are) = prepare_endpoints_lem lib d key id es made prepares in
                subst (λ x. IsPrepared id es s x.0 x.1) same_ones
                  (record {
                    same_one = ensure_endpoint_identity_key-IsSame lib d candidate key s u ensured;
                    prepared_are = prepared_are;
                    checked = checked;
                  })
          ]
        ]

    pub add_edit-IsAppended :
        (sub : Subscription) (parsed : Parsed) (s s' : Snapshot) (r : ℕ) (count : ℕ)
        → Gives (add_edit lib d candidate sub parsed s) s' count
        → IsAppended sub parsed s (record s' { revision = r }) count
    unfolding add_edit
    add_edit-IsAppended sub parsed s s' r count h =
        elim (Option-cases (find_subscription sub.id s.subscriptions)) [
          | inr (c, found) ↦ absurd (ground arith)
          | inl missing ↦
              elim (Result-cases (with_prepared lib d candidate sub.id parsed.endpoints s)) [
                | inl (e, failed) ↦ absurd (ground arith)
                | inr ((u, prepared), made) ↦
                    let p = with_prepared-IsPrepared sub.id parsed.endpoints s u prepared made in
                    let accepted = rw (missing, add_edit, made) at h in
                    record {
                      missing = missing;
                      subscriptions =
                          sym (ap subscriptions_by accepted)
                          ∙ ap (λ l. l ++ sub ∷ []) p.same_one.subscriptions;
                      endpoints = record {
                        kept = u.endpoints;
                        prepared = prepared;
                        now_is = sym (ap endpoints_by accepted);
                        kept_are = p.same_one.endpoints;
                        prepared_are = p.prepared_are;
                        checked = p.checked;
                        counted = sym (ap (result_by 0) accepted);
                      };
                    }
              ]
        ]

    pub commit_refresh-IsReplaced :
        (id secret_ref token : Bytes) (now : ℕ) (parsed : Parsed) (s s' : Snapshot) (r : ℕ)
        (count : ℕ)
        → Gives (commit_refresh lib d candidate id secret_ref token now parsed s) s' count
        → IsReplaced id secret_ref token now parsed s (record s' { revision = r }) count
    unfolding commit_refresh
    commit_refresh-IsReplaced id secret_ref token now parsed s s' r count h =
        elim (Option-cases (still_ours (find_subscription id s.subscriptions) secret_ref token)) [
          | inr (e, refused) ↦ absurd (ground arith)
          | inl passed ↦ elim (Result-cases (with_prepared lib d candidate id parsed.endpoints s)) [
            | inl (e, failed) ↦ absurd (ground arith)
            | inr ((u, prepared), made) ↦
                let (c, found, ours) =
                  found-IsOurs (find_subscription id s.subscriptions) secret_ref token passed in
                let p = with_prepared-IsPrepared id parsed.endpoints s u prepared made in
                let at = find-IsAt id s.subscriptions c found in
                let accepted = rw (passed, commit_refresh, made) at h in
                record {
                  old = c;
                  ours = ours;
                  at = at;
                  subscriptions =
                      sym (ap subscriptions_by accepted)
                      ∙ ap (change_subscription id (refreshed lib d candidate parsed.format now))
                          p.same_one.subscriptions
                      ∙ change-IsAt id s.subscriptions c
                          (refreshed lib d candidate parsed.format now) at;
                  endpoints = record {
                    kept = others id u.endpoints;
                    prepared = prepared;
                    now_is = sym (ap endpoints_by accepted);
                    kept_are =
                        map-others id u.endpoints
                        ∙ ap (others id) p.same_one.endpoints
                        ∙ sym (map-others id s.endpoints);
                    prepared_are = p.prepared_are;
                    checked = p.checked;
                    counted = sym (ap (result_by 0) accepted);
                  };
                  none_left = none-others id u.endpoints;
                }
          ]
        ]
