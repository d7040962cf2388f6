-- ===== src/App/RefreshCommits.antt =====
-- internal/app/service.go: what refreshSubscription writes to the state file.
use tui_box.Prelude.{
  ℕ, suc, option_split, ap, ◌∙◌, inl, inr, Bool-cases, ◌≡◌, refl, true, not, ◌||◌, Option, none,
  some, List, [], Bytes, ◌==◌, length, if_both, arith,
}
use tui_box.Prelude.Results.{Result, ok, err}
use tui_box.Domain.Checks.{Library}
use tui_box.Domain.Types.{Endpoint}
use tui_box.Domain.Subscription.{Subscription, is_known_format}
use tui_box.Latency.Result.{ContextErr}
use tui_box.Store.Snapshot.{Snapshot}
use tui_box.Store.File.{StoreErr, Store, Failure, update, of_store, of_edit, Updated}
use tui_box.Store.Updates.{UpdateTells, update_lem}
use tui_box.Subscription.Library.{Digests}
use tui_box.App.Errors.{Err, context_error, valid_identifier}
use tui_box.App.Identity.{parsed_endpoints_ok}
use tui_box.App.World.{World, SecretErr, not_found, failed, get_secret}
use tui_box.Subscription.Parser.{Parsed}
use tui_box.App.Edited.{IsMarked, IsNoted, mark_refresh-IsMarked, record_failure-IsNoted}
use tui_box.App.Grown.{IsReplaced, commit_refresh-IsReplaced}
use tui_box.App.Turns.{Committed-Turns}
use tui_box.App.Edits.{mark_refresh, record_failure, commit_refresh}
use tui_box.App.Refresh.{
  RefreshTrace, Refreshed, in_store, is_refresh_failed, failure_result, record_refresh_failure,
  failed_wait, committed, parsed_stage, fetched_stage, secret_stage, marked, with_token,
  refresh_subscription,
}
use tui_box.App.RefreshEnds.{Wrote, Began, FailedIn, Stops, RefreshOutcome}

get_secret-failed :
    (e : Option (Option ContextErr)) (k : Bytes) (w : World) (cause : Option ContextErr)
    → get_secret e k w ≡ err (failed cause)
    → e ≡ some cause
get_secret-failed e k w cause h = ground arith

module _ (lib : Library) (encode_error : Snapshot → Option StoreErr) (d : Digests)
    (candidate : Bytes) (t : RefreshTrace) (id : Bytes) where
  module _ (secret_ref token : Bytes) (v : World) where
    failure-Wrote :
        (u : World) (x : Updated Err (Unit {0}))
        → FailedIn lib encode_error d candidate t id v u
        → (update lib encode_error t.failure
            (record_failure id secret_ref token)
            (t.before_failure u).store).1
          ≡ x.1
        → UpdateTells lib encode_error
            (record_failure id secret_ref token)
            (t.before_failure u).store.content
            x.1
            x.0.content
        → Wrote lib encode_error d candidate t id secret_ref token v (
            failure_result lib encode_error d candidate id t.failure_over
              (in_store (t.before_failure u) x))
    failure-Wrote u (store, ok tt) f r h =
        let turns =
          Committed-Turns lib encode_error (record_failure id secret_ref token)
            (t.before_failure u).store.content store.content tt (IsNoted id secret_ref token)
            (λ s s' l e. record_failure-IsNoted id secret_ref token s s' (suc s'.revision) e) h in
        (u, f, turns)
    failure-Wrote u (store, err e) f r h = inr (inr (u, f, (e, r, refl)))

    record_refresh_failure-Wrote :
        (u : World)
        → FailedIn lib encode_error d candidate t id v u
        → Wrote lib encode_error d candidate t id secret_ref token v
            (record_refresh_failure lib encode_error d candidate t id secret_ref token u)
    unfolding record_refresh_failure
    record_refresh_failure-Wrote u f = failure-Wrote u _ f refl (
        update_lem lib encode_error t.failure (record_failure id secret_ref token)
          (t.before_failure u).store)

    -- Only a callback fails with ErrRefreshFailed, and then the file is as it was.
    refused-FailedIn :
        (parsed : Parsed) (store : Store) (e : Failure Err)
        → is_refresh_failed e ≡ true
        → UpdateTells lib encode_error
            (commit_refresh lib d candidate id secret_ref token t.now parsed)
            (t.during v).store.content
            (err e)
            store.content
        → FailedIn lib encode_error d candidate t id v (record (t.during v) { store = store })
    refused-FailedIn parsed store (of_store e) refused h = absurd (ground arith)
    refused-FailedIn parsed store (of_edit e) refused (s, l, rejects, same_one) =
        inr (refl, same_one)

    committed-Wrote :
        (old : List Endpoint) (parsed : Parsed) (x : Updated Err ℕ)
        → t.parsed ≡ some parsed
        → parsed_endpoints_ok lib d id [] parsed.endpoints ≡ true
        → (update lib encode_error t.commit
            (commit_refresh lib d candidate id secret_ref token t.now parsed)
            (t.during v).store).1
          ≡ x.1
        → UpdateTells lib encode_error
            (commit_refresh lib d candidate id secret_ref token t.now parsed)
            (t.during v).store.content
            x.1
            x.0.content
        → Wrote lib encode_error d candidate t id secret_ref token v (
            committed lib encode_error d candidate t id secret_ref token old parsed
              (in_store (t.during v) x))
    unfolding committed
    committed-Wrote old parsed (store, ok count) p checked r h =
        let turns =
          Committed-Turns lib encode_error
            (commit_refresh lib d candidate id secret_ref token t.now parsed)
            (t.during v).store.content store.content count
            (λ s s'. IsReplaced lib d id secret_ref token t.now parsed s s' count)
            (λ s s' l e.
              commit_refresh-IsReplaced lib d candidate id secret_ref token t.now parsed s s'
                (suc s'.revision) count e)
            h in
        (parsed, p, checked, turns)
    committed-Wrote old parsed (store, err e) p checked r h =
        elim (Bool-cases (is_refresh_failed e)) [
          | inl refused ↦
              rw (refused, committed)
                (record_refresh_failure-Wrote (record (t.during v) { store = store })
                  (refused-FailedIn parsed store e refused h))
          | inr other ↦ rw (other, committed) (inr (inl (parsed, p, (e, r, refl))))
        ]

    parsed_stage-Wrote :
        (old : List Endpoint) (o : Option Parsed)
        → t.parsed ≡ o
        → Wrote lib encode_error d candidate t id secret_ref token v
            (parsed_stage lib encode_error d candidate t id secret_ref token old o v)
    unfolding parsed_stage
    parsed_stage-Wrote old none p = record_refresh_failure-Wrote v (inl refl)
    parsed_stage-Wrote old (some parsed) p =
        if_both (Wrote lib encode_error d candidate t id secret_ref token v)
          (length parsed.endpoints == 0
            || not (is_known_format parsed.format)
            || not (parsed_endpoints_ok lib d id [] parsed.endpoints))
          (λ bad. record_refresh_failure-Wrote v (inl refl))
          (λ good.
            option_split (Wrote lib encode_error d candidate t id secret_ref token v) t.parse_over
              (λ going. committed-Wrote old parsed _ p (ground arith) refl (
                update_lem lib encode_error t.commit
                  (commit_refresh lib d candidate id secret_ref token t.now parsed)
                  (t.during v).store))
              (λ c over. inl (c, refl, inr (inr (inr over)))))

    waited-Stops :
        (o cause : Option ContextErr) (c : ContextErr)
        → t.wait_over ≡ o
        → ((c : ContextErr) → cause ≡ some c → Stops lib encode_error d candidate t id c)
        → context_error o cause ≡ some c
        → Stops lib encode_error d candidate t id c
    unfolding context_error
    waited-Stops none cause c e stops h = stops c h
    waited-Stops (some c') cause c e stops h = inl (e ∙ h)

    failed_wait-Wrote :
        (cause : Option ContextErr)
        → ((c : ContextErr) → cause ≡ some c → Stops lib encode_error d candidate t id c)
        → Wrote lib encode_error d candidate t id secret_ref token v
            (failed_wait lib encode_error d candidate t cause id secret_ref token v)
    failed_wait-Wrote cause stops =
        option_split (Wrote lib encode_error d candidate t id secret_ref token v)
          (context_error t.wait_over cause) (λ going. record_refresh_failure-Wrote v (inl refl))
          (λ c over. inl (c, refl, waited-Stops t.wait_over cause c refl stops over))

    fetched_stage-Wrote :
        (old : List Endpoint) (r : Result (Option ContextErr) Bytes)
        → t.fetched ≡ r
        → Wrote lib encode_error d candidate t id secret_ref token v
            (fetched_stage lib encode_error d candidate t id secret_ref token old r v)
    unfolding fetched_stage
    fetched_stage-Wrote old (err cause) e =
        failed_wait-Wrote cause (λ c h. inr (inr (inl (e ∙ ap err h))))
    fetched_stage-Wrote old (ok document) e = parsed_stage-Wrote old t.parsed refl

    secret_stage-Wrote :
        (old : List Endpoint) (r : Result SecretErr Bytes)
        → get_secret t.get_error secret_ref v ≡ r
        → Wrote lib encode_error d candidate t id secret_ref token v
            (secret_stage lib encode_error d candidate t id secret_ref token old r v)
    unfolding secret_stage
    secret_stage-Wrote old (err not_found) e = failed_wait-Wrote none (λ c h. absurd (ground arith))
    secret_stage-Wrote old (err (failed cause)) e =
        failed_wait-Wrote cause
          (λ c h. inr (inl (get_secret-failed t.get_error secret_ref v cause e ∙ ap some h)))
    secret_stage-Wrote old (ok url) e = fetched_stage-Wrote old t.fetched refl

  Wrote-RefreshOutcome :
      (w u : World) (secret_ref token : Bytes) (x : Refreshed lib encode_error d candidate)
      → t.token ≡ some token
      → Began lib encode_error d candidate t id w secret_ref token u
      → Wrote lib encode_error d candidate t id secret_ref token (t.meanwhile u) x
      → RefreshOutcome lib encode_error d candidate t id w x
  Wrote-RefreshOutcome w u secret_ref token (w', err e) e' began h =
      inr (inr (secret_ref, token, u, e', began, h))
  Wrote-RefreshOutcome w u secret_ref token (w', ok x) e' began h =
      (secret_ref, token, u, e', began, h)

  marked-RefreshOutcome :
      (w : World) (token : Bytes) (x : Updated Err (Subscription × List Endpoint))
      → t.token ≡ some token
      → (update lib encode_error t.mark (mark_refresh id token) w.store).1 ≡ x.1
      → UpdateTells lib encode_error (mark_refresh id token) w.store.content x.1 x.0.content
      → RefreshOutcome lib encode_error d candidate t id w
          (marked lib encode_error d candidate t id token (in_store w x))
  unfolding marked
  marked-RefreshOutcome w token (store, err e) h r tells = inr (inl (token, h, (e, r, refl)))
  marked-RefreshOutcome w token (store, ok (sub, old)) h r tells =
      let u = record w { store = store } in
      let found = get_secret t.get_error sub.secret_ref (t.meanwhile u) in
      let turns =
        Committed-Turns lib encode_error (mark_refresh id token) w.store.content store.content
          (sub, old) (λ s s'. IsMarked id token s s' (sub, old))
          (λ s s' l e. mark_refresh-IsMarked id token s s' (suc s'.revision) (sub, old) e) tells in
      Wrote-RefreshOutcome w u sub.secret_ref token
        (secret_stage lib encode_error d candidate t id sub.secret_ref token old found
          (t.meanwhile u))
        h ((sub, old), refl, refl, turns)
        (secret_stage-Wrote sub.secret_ref token (t.meanwhile u) old found refl)

  with_token-RefreshOutcome :
      (o : Option Bytes) (w : World)
      → t.token ≡ o
      → RefreshOutcome lib encode_error d candidate t id w
          (with_token lib encode_error d candidate t id o w)
  unfolding with_token
  with_token-RefreshOutcome none w h = inl (refl, inl h)
  with_token-RefreshOutcome (some token) w h =
      if_both (RefreshOutcome lib encode_error d candidate t id w) (not (valid_identifier token))
        (λ bad. inl (refl, inr (token, h, ground arith)))
        (λ good.
          marked-RefreshOutcome w token _ h refl
            (update_lem lib encode_error t.mark (mark_refresh id token) w.store))

  -- refreshSubscription, whatever the stores, the fetcher, the parser and other processes do. A
  -- result says that the file held a valid snapshot and got one of the next revision in which the
  -- subscription has the token of this refresh. A result without ErrRefreshFailed says further that,
  -- when the document was parsed, the file held a valid snapshot in which the subscription has still
  -- that token and its secret, and now holds one of the next revision: the subscription has the
  -- parsed format, the time, no error and no token; the endpoints are those of the other
  -- subscriptions and then the parsed ones, in which only IDs differ; the new ones pass
  -- validateParsedEndpoints, and their number is returned. A result with ErrRefreshFailed says that
  -- the file now holds one in which the subscription has the error and no token, and the other
  -- subscriptions and the endpoints are as they were. An error says that no valid token was
  -- generated, or that the first Update failed with it; or that, after the token was in the file,
  -- the context ended, the secret store or the fetcher failed with the error of a context, or the
  -- Update of the endpoints or of the failure failed with it.
  pub refresh_subscription_lem :
      (w : World)
      → RefreshOutcome lib encode_error d candidate t id w
          (refresh_subscription lib encode_error d candidate t id w)
  unfolding refresh_subscription
  refresh_subscription_lem w = with_token-RefreshOutcome t.token w refl
