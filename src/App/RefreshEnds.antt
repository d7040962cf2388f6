-- ===== src/App/RefreshEnds.antt =====
-- internal/app/service.go: the ends of refreshSubscription, by what it returns.
use tui_box.Prelude.{ℕ, Bool, ◌⊎◌, ◌≡◌, true, false, Option, none, some, List, [], Bytes}
use tui_box.Prelude.Results.{Result, ok, err}
use tui_box.Domain.Checks.{Library}
use tui_box.Domain.Types.{Endpoint}
use tui_box.Domain.Subscription.{Subscription}
use tui_box.Latency.Result.{ContextErr}
use tui_box.Store.Snapshot.{Snapshot}
use tui_box.Store.File.{StoreErr, Content, Failure, update}
use tui_box.Subscription.Library.{Digests}
use tui_box.App.Errors.{Err, context, refresh_failed, valid_identifier}
use tui_box.App.Identity.{parsed_endpoints_ok}
use tui_box.App.World.{World}
use tui_box.Subscription.Parser.{Parsed}
use tui_box.App.Edited.{IsMarked, IsNoted}
use tui_box.App.Grown.{IsReplaced}
use tui_box.App.Turns.{Turns}
use tui_box.App.Edits.{mark_refresh, record_failure, commit_refresh}
use tui_box.App.Refresh.{RefreshTrace, Refreshed, update_error, is_lost, is_not_found}

module _ (lib : Library) (encode_error : Snapshot → Option StoreErr) (d : Digests)
    (candidate : Bytes) (t : RefreshTrace) (id : Bytes) where
  -- A refresh waits in the world `v`. The parsed endpoints, which were checked, are in the file.
  abbrev pub Stored : Bytes → Bytes → World → ℕ → Content → Type 0
  Stored secret_ref token v count after =
      (parsed : Parsed) × (t.parsed ≡ some parsed)
      × (parsed_endpoints_ok lib d id [] parsed.endpoints ≡ true)
      × Turns lib encode_error
          (λ s s'. IsReplaced lib d id secret_ref token t.now parsed s s' count)
          (t.during v).store.content after

  -- The world in which a refresh has failed: the one in which it waits, or that of the second Update,
  -- which has refused the snapshot.
  abbrev pub FailedIn : World → World → Type 0
  FailedIn v u =
      (u ≡ v)
      ⊎ (u ≡ record (t.during v) { store = u.store })
        × (u.store.content ≡ (t.during v).store.content)

  -- The state file says that the refresh failed.
  abbrev pub Noted : Bytes → Bytes → World → Content → Type 0
  Noted secret_ref token v after =
      (u : World) × FailedIn v u
      × Turns lib encode_error (IsNoted id secret_ref token) (t.before_failure u).store.content
          after

  -- The error of an Update that has failed, as the service maps it.
  abbrev pub Fails :
      {A : Type 0} → Result (Failure Err) A → (Err → Bool) → Option ContextErr → Err → Type 0
  Fails r passes over e = (f : Failure Err) × (r ≡ err f) × (e ≡ update_error passes over f)

  -- The context has ended, or what the refresh waits for failed with its error.
  abbrev pub Stops : ContextErr → Type 0
  Stops c =
      (t.wait_over ≡ some c)
      ⊎ (t.get_error ≡ some (some c))
      ⊎ (t.fetched ≡ err (some c))
      ⊎ (t.parse_over ≡ some c)

  -- After an error: the context has ended, or the Update that was to write has failed.
  abbrev pub Lost : Bytes → Bytes → World → Err → Type 0
  Lost secret_ref token v e =
      ((c : ContextErr) × (e ≡ context c) × Stops c)
      ⊎ ((parsed : Parsed) × (t.parsed ≡ some parsed)
          × Fails
              (update lib encode_error t.commit
                (commit_refresh lib d candidate id secret_ref token t.now parsed)
                (t.during v).store).1
              is_lost t.commit_over e)
      ⊎ ((u : World) × FailedIn v u
          × Fails
              (update lib encode_error t.failure (record_failure id secret_ref token)
                (t.before_failure u).store).1
              is_lost t.failure_over e)

  abbrev pub Wrote : Bytes → Bytes → World → Refreshed lib encode_error d candidate → Type 0
  Wrote secret_ref token v (w', err e) = Lost secret_ref token v e
  Wrote secret_ref token v (w', ok x) = elim x.has_failed [
    | true ↦ Noted secret_ref token v w'.store.content
    | false ↦ Stored secret_ref token v x.server_count w'.store.content
  ]

  -- The first Update has given the subscription, which has this secret, the token.
  abbrev pub Began : World → Bytes → Bytes → World → Type 0
  Began w secret_ref token u =
      (r : Subscription × List Endpoint) × (r.0.secret_ref ≡ secret_ref)
      × (u ≡ record w { store = u.store })
      × Turns lib encode_error (λ s s'. IsMarked id token s s' r) w.store.content u.store.content

  -- No token was generated, or one that is no identifier.
  abbrev pub HasNoToken : Type 0
  HasNoToken =
      (t.token ≡ none)
      ⊎ ((token : Bytes) × (t.token ≡ some token) × (valid_identifier token ≡ false))

  abbrev pub RefreshOutcome : World → Refreshed lib encode_error d candidate → Type 0
  RefreshOutcome w (w', err e) =
      ((e ≡ refresh_failed) × HasNoToken)
      ⊎ ((token : Bytes) × (t.token ≡ some token)
          × Fails (update lib encode_error t.mark (mark_refresh id token) w.store).1 is_not_found
              t.mark_over e)
      ⊎ ((secret_ref : Bytes) × (token : Bytes) × (u : World) × (t.token ≡ some token)
          × Began w secret_ref token u
          × Lost secret_ref token (t.meanwhile u) e)
  RefreshOutcome w (w', ok x) =
      (secret_ref : Bytes) × (token : Bytes) × (u : World) × (t.token ≡ some token)
      × Began w secret_ref token u
      × Wrote secret_ref token (t.meanwhile u) (w', ok x)
