-- ===== src/App/AddCompensates.antt =====
-- internal/app/service.go: what AddSubscription leaves behind.
use tui_box.Prelude.{
  ℕ, suc, same_refl, ◌≡◌, ◌≢◌, ◌⊎◌, inl, inr, refl, Bool, true, false, not, ◌||◌, Option, none,
  some, List, [], ◌∷◌, Bytes, leb, ◌==◌, length, any, Option-cases, Bool-cases, if_both,
  option_both, arith,
}
use tui_box.Prelude.Results.{Result, ok, err}
use tui_box.TerminalText.{is_blank}
use tui_box.TerminalText.Utf8.{valid_string}
use tui_box.Domain.Checks.{Library}
use tui_box.Domain.Endpoint.{max_name_length}
use tui_box.Domain.Subscription.{Subscription, is_known_format}
use tui_box.Latency.Result.{ContextErr}
use tui_box.Store.Snapshot.{Snapshot}
use tui_box.Store.File.{StoreErr, Store, Access, Updated, load, load_locked}
use tui_box.Store.Updates.{UpdateTells, update_lem}
use tui_box.Store.Runs.{Loads}
use tui_box.Subscription.Library.{Digests}
use tui_box.App.Errors.{Err, secret_operation, valid_text, valid_identifier}
use tui_box.App.Identity.{parsed_endpoints_ok}
use tui_box.App.World.{
  World, SecretErr, not_found, failed, find, erase, get_secret, set_secret, delete_secret,
  WriteSecret, written, broken,
}
use tui_box.App.Edits.{find_subscription, add_edit}
use tui_box.App.Refresh.{in_store}
use tui_box.App.Grown.{IsAppended, add_edit-IsAppended}
use tui_box.App.Turns.{Turns, Committed-Turns}
use tui_box.App.Add.{
  AddTrace, Added, secret_ref_of, owns_secret, primary_error, deleted, compensate_loaded,
  compensate, add_updated, new_subscription, add_stored, add_parsed, add_fetched, add_named,
  add_with_id, add_subscription,
}

abbrev pub is_secret_error : Err → Bool
is_secret_error secret_operation = true
is_secret_error _ = false

pub find-erase : (k : Bytes) (m : List (Bytes × Bytes)) → find k (erase k m) ≡ none
unfolding find erase
find-erase k [] = refl
find-erase k ((j, v) ∷ m) = ground (arith, find-erase k m)

pub find-assign : (k v : Bytes) (m : List (Bytes × Bytes)) → find k ((k, v) ∷ m) ≡ some v
unfolding find
find-assign k v m = rw (same_refl k) refl

pub load-Loads :
    (lib : Library) (encode_error : Snapshot → Option StoreErr) (t : Access) (store : Store)
    (s : Snapshot)
    → load lib encode_error t store ≡ ok s
    → Loads lib encode_error store.content s
unfolding load load_locked
load-Loads lib encode_error t store s h =
    ground (arith, Option-cases t.lock_error, Option-cases t.load_error)

pub told_last : (primary : Err) → any is_secret_error (primary ∷ secret_operation ∷ []) ≡ true
told_last primary = elim (Bool-cases (is_secret_error primary)) [
  | inl secret ↦ rw secret refl
  | inr other ↦ rw other refl
]

module _ (lib : Library) (encode_error : Snapshot → Option StoreErr) (d : Digests)
    (candidate : Bytes) (t : AddTrace) (w : World) where
  -- After an error: nothing was done; or the secret was not written; or the error says that the
  -- secret may be left; or the secret is gone; or the state holds the subscription that owns it.
  abbrev pub IsClean : Bytes → World → List Err → Type 0
  IsClean id w' es =
      (w' ≡ w)
      ⊎ (t.set ≢ written)
      ⊎ (any is_secret_error es ≡ true)
      ⊎ (find (secret_ref_of id) w'.secrets ≡ none)
      ⊎ ((s : Snapshot) × Loads lib encode_error w'.store.content s
          × (owns_secret (secret_ref_of id) (find_subscription id s.subscriptions) ≡ true))

  -- The world in which the secret store has these secrets when the state file is written.
  abbrev pub with_secrets : List (Bytes × Bytes) → World
  with_secrets secrets = t.before_update (record (t.meanwhile w) { secrets = secrets })

  -- After a success: the secret was in the secret store before the file was written, and then only
  -- the file was; the file has the subscription and its endpoints after what it had.
  abbrev pub IsAdded : Bytes → Bytes → Bytes → World → Subscription → ℕ → Type 0
  IsAdded id name url w' sub count =
      (sub ≡ new_subscription lib encode_error d candidate t id name)
      × ((secrets : List (Bytes × Bytes)) × (find (secret_ref_of id) secrets ≡ some url)
          × (w' ≡ record (with_secrets secrets) { store = w'.store })
          × Turns lib encode_error (λ s s'. IsAppended lib d sub t.parsed s s' count)
              (with_secrets secrets).store.content w'.store.content)

  abbrev pub AddOutcome : Bytes → Bytes → Bytes → Added → Type 0
  AddOutcome id name url (w', err es) = IsClean id w' es
  AddOutcome id name url (w', ok (sub, count)) = IsAdded id name url w' sub count

  deleted-IsClean :
      (id name url : Bytes) (primary : Err) (end : WriteSecret) (w' : World)
      → AddOutcome id name url (deleted primary (delete_secret end (secret_ref_of id) w'))
  deleted-IsClean id name url primary written w' =
      inr (inr (inr (inl (find-erase (secret_ref_of id) w'.secrets))))
  deleted-IsClean id name url primary (broken true cause) w' = inr (inr (inl (told_last primary)))
  deleted-IsClean id name url primary (broken false cause) w' = inr (inr (inl (told_last primary)))

  compensate_loaded-IsClean :
      (id name url : Bytes) (primary : Err) (r : Result StoreErr Snapshot) (w' : World)
      → load lib encode_error t.load w'.store ≡ r
      → AddOutcome id name url
          (compensate_loaded lib encode_error d candidate t id (secret_ref_of id) primary r w')
  unfolding compensate_loaded
  compensate_loaded-IsClean id name url primary (err e) w' l = inr (inr (inl (told_last primary)))
  compensate_loaded-IsClean id name url primary (ok current) w' l =
      if_both (AddOutcome id name url)
        (owns_secret (secret_ref_of id) (find_subscription id current.subscriptions))
        (λ owned.
          inr (
            inr
              (inr (inr (current, load-Loads lib encode_error t.load w'.store current l, owned)))))
        (λ free. deleted-IsClean id name url primary t.delete (t.before_delete w'))

  add_updated-AddOutcome :
      (id name url : Bytes) (secrets : List (Bytes × Bytes)) (x : Updated Err ℕ)
      → find (secret_ref_of id) secrets ≡ some url
      → UpdateTells lib encode_error
          (add_edit lib d candidate
            (new_subscription lib encode_error d candidate t id name)
            t.parsed)
          (with_secrets secrets).store.content
          x.1
          x.0.content
      → AddOutcome id name url (
          add_updated lib encode_error d candidate t
            (new_subscription lib encode_error d candidate t id name)
            (in_store (with_secrets secrets) x))
  unfolding add_updated compensate
  add_updated-AddOutcome id name url secrets (store, ok count) there h =
      let sub = new_subscription lib encode_error d candidate t id name in
      let turns =
        Committed-Turns lib encode_error (add_edit lib d candidate sub t.parsed)
          (with_secrets secrets).store.content store.content count
          (λ s s'. IsAppended lib d sub t.parsed s s' count)
          (λ s s' l e.
            add_edit-IsAppended lib d candidate sub t.parsed s s' (suc s'.revision) count e)
          h in
      (refl, (secrets, there, refl, turns))
  add_updated-AddOutcome id name url secrets (store, err e) there h =
      let w' = t.before_load (record (with_secrets secrets) { store = store }) in
      compensate_loaded-IsClean id name url (primary_error t.update_over e)
        (load lib encode_error t.load w'.store) w' refl

  add_stored-AddOutcome :
      (id name url : Bytes) (end : WriteSecret)
      → t.set ≡ end
      → AddOutcome id name url (
          add_stored lib encode_error d candidate t id name
            (set_secret end (secret_ref_of id) url (t.meanwhile w)))
  unfolding add_stored
  add_stored-AddOutcome id name url (broken true cause) set = inr (inl (λ h. ground arith))
  add_stored-AddOutcome id name url (broken false cause) set = inr (inl (λ h. ground arith))
  add_stored-AddOutcome id name url written set =
      let secrets = (secret_ref_of id, url) ∷ (t.meanwhile w).secrets in
      add_updated-AddOutcome id name url secrets _
        (find-assign (secret_ref_of id) url (t.meanwhile w).secrets)
        (update_lem lib encode_error t.update
          (add_edit lib d candidate (new_subscription lib encode_error d candidate t id name)
            t.parsed)
          (with_secrets secrets).store)

  add_parsed-AddOutcome :
      (id name url : Bytes)
      → AddOutcome id name url (add_parsed lib encode_error d candidate t id name url w)
  unfolding add_parsed
  add_parsed-AddOutcome id name url =
      option_both (AddOutcome id name url) t.parse_error
        (if_both (AddOutcome id name url)
          (length t.parsed.endpoints == 0
            || not (is_known_format t.parsed.format)
            || not (parsed_endpoints_ok lib d id [] t.parsed.endpoints))
          (λ bad. inl refl)
          (λ good.
            option_both (AddOutcome id name url) t.parsed_over
              (add_stored-AddOutcome id name url t.set refl) (λ c. inl refl)))
        (λ c. inl refl)

  add_fetched-AddOutcome :
      (id name url : Bytes) (r : Result (Option ContextErr) Bytes)
      → AddOutcome id name url (add_fetched lib encode_error d candidate t id name url r w)
  unfolding add_fetched
  add_fetched-AddOutcome id name url (err cause) = inl refl
  add_fetched-AddOutcome id name url (ok document) = add_parsed-AddOutcome id name url

  add_named-AddOutcome :
      (id name url : Bytes) (r : Result SecretErr Bytes)
      → AddOutcome id name url (add_named lib encode_error d candidate t id name url r w)
  unfolding add_named
  add_named-AddOutcome id name url (ok old) = inl refl
  add_named-AddOutcome id name url (err (failed cause)) = inl refl
  add_named-AddOutcome id name url (err not_found) = add_fetched-AddOutcome id name url t.fetched

  add_with_id-AddOutcome :
      (id name url : Bytes)
      → AddOutcome id name url (add_with_id lib encode_error d candidate t name url (some id) w)
  unfolding add_with_id
  add_with_id-AddOutcome id name url =
      if_both (AddOutcome id name url)
        (not (valid_identifier id) || not (leb (length (secret_ref_of id)) 128)) (λ bad. inl refl)
        (λ good. add_named-AddOutcome id name url (get_secret t.get_error (secret_ref_of id) w))

  -- AddSubscription, whatever the stores, the fetcher, the parser and other processes do. If it
  -- succeeds, then the secret store had the URL under the subscription's name before the state file
  -- was written; the file held a valid snapshot without a subscription of that ID, and now holds one
  -- of the next revision: its subscriptions are the old ones and then the new one, and its endpoints
  -- are the old ones and then the parsed ones, in which only IDs differ; the new ones pass
  -- validateParsedEndpoints, and their number is returned. If it fails, then nothing was changed; or
  -- the secret store failed to write; or the returned errors include errSecretOperation; or the
  -- secret is gone; or the state file holds the subscription that owns the secret.
  pub add_subscription_lem :
      (id name url : Bytes)
      → t.id ≡ some id
      → AddOutcome id name url (add_subscription lib encode_error d candidate t name url w)
  unfolding add_subscription
  add_subscription_lem id name url given =
      if_both (AddOutcome id name url)
        (not (valid_text lib.tables name max_name_length true)
          || is_blank url
          || not (valid_string url))
        (λ bad. inl refl) (λ good. rw given (add_with_id-AddOutcome id name url))
