-- ===== src/App/RemoveCompensates.antt =====
-- internal/app/service.go: what RemoveSubscription leaves behind.
use tui_box.Prelude.{
  suc, Option-cases, ◌≡◌, ◌≢◌, ◌⊎◌, inl, inr, refl, true, false, not, Option, none, some, List, [],
  ◌∷◌, Bytes, any, if_both, arith,
}
use tui_box.Prelude.Results.{Result, ok, err}
use tui_box.Domain.Checks.{Library}
use tui_box.Latency.Result.{ContextErr}
use tui_box.Domain.Subscription.{Subscription}
use tui_box.Domain.Types.{Endpoint}
use tui_box.Store.Snapshot.{Snapshot}
use tui_box.Store.File.{StoreErr, Updated, load}
use tui_box.Store.Updates.{UpdateTells, update_lem}
use tui_box.Store.Runs.{Loads}
use tui_box.App.Errors.{Err, valid_identifier}
use tui_box.App.World.{
  World, SecretErr, not_found, failed, find, erase, get_secret, set_secret, delete_secret,
  WriteSecret, written, broken,
}
use tui_box.App.Edits.{find_subscription, remove_edit}
use tui_box.App.Add.{owns_secret}
use tui_box.App.AddCompensates.{is_secret_error, told_last, load-Loads, find-erase, find-assign}
use tui_box.App.Edited.{IsDropped, remove_edit-IsDropped}
use tui_box.App.Turns.{Turns, Committed-Turns, Loads-Distinct}
use tui_box.App.Refresh.{in_store, update_error, is_not_found}
use tui_box.App.Remove.{
  RemoveTrace, Removed, restored, restore_loaded, remove_updated, remove_state, after_delete,
  remove_secret, remove_loaded, remove_subscription,
}

get_secret-missing :
    (e : Option (Option ContextErr)) (k : Bytes) (w : World)
    → get_secret e k w ≡ err not_found
    → find k w.secrets ≡ none
get_secret-missing e k w h = ground arith

module _ (lib : Library) (encode_error : Snapshot → Option StoreErr) (t : RemoveTrace) (id : Bytes)
    (w : World) where
  -- The secret `secret_ref` was in the secret store with the value `url` before it was deleted.
  abbrev pub Had : Bytes → Bytes → Type 0
  Had secret_ref url = get_secret t.get_error secret_ref (t.meanwhile w) ≡ ok url

  -- After an error: nothing was done; or a secret was not deleted as it should; or the error says
  -- that the secret may be lost; or the secret is there again; or the state has no use for it.
  abbrev pub IsRestored : World → List Err → Bytes → Type 0
  IsRestored w' es secret_ref =
      (w' ≡ t.meanwhile w)
      ⊎ (t.delete ≢ written)
      ⊎ (any is_secret_error es ≡ true)
      ⊎ ((url : Bytes) × Had secret_ref url × (find secret_ref w'.secrets ≡ some url))
      ⊎ ((s : Snapshot) × Loads lib encode_error w'.store.content s
          × (owns_secret secret_ref (find_subscription id s.subscriptions) ≡ false))

  -- The world in which the secret store has these secrets when the state file is written.
  abbrev pub with_secrets : List (Bytes × Bytes) → World
  with_secrets secrets = t.before_update (record (t.meanwhile w) { secrets = secrets })

  -- After a success: the secret was gone from the secret store, and then the file was written
  -- without the subscription and its endpoints.
  abbrev pub IsRemoved : World → Bytes → Type 0
  IsRemoved w' secret_ref =
      (secrets : List (Bytes × Bytes)) × (find secret_ref secrets ≡ none)
      × (w'.secrets ≡ (with_secrets secrets).secrets)
      × Turns lib encode_error (IsDropped id secret_ref) (with_secrets secrets).store.content
          w'.store.content

  -- The file that was loaded first has the subscription, with this name of its secret.
  abbrev pub IsNamed : Bytes → Type 0
  IsNamed secret_ref =
      (s : Snapshot) × (c : Subscription) × Loads lib encode_error w.store.content s
      × (find_subscription id s.subscriptions ≡ some c)
      × (c.secret_ref ≡ secret_ref)

  -- What holds after the secret was looked up.
  abbrev pub Ends : Bytes → Removed → Type 0
  Ends secret_ref (w', []) = IsRemoved w' secret_ref
  Ends secret_ref (w', e ∷ es) = IsRestored w' (e ∷ es) secret_ref

  abbrev pub RemoveOutcome : Removed → Type 0
  RemoveOutcome (w', []) = (secret_ref : Bytes) × IsNamed secret_ref × IsRemoved w' secret_ref
  RemoveOutcome (w', e ∷ es) =
      (w' ≡ w) ⊎ ((secret_ref : Bytes) × IsNamed secret_ref × IsRestored w' (e ∷ es) secret_ref)

  Ends-RemoveOutcome :
      (secret_ref : Bytes) (x : Removed) → IsNamed secret_ref → Ends secret_ref x → RemoveOutcome x
  Ends-RemoveOutcome secret_ref (w', []) n h = (secret_ref, n, h)
  Ends-RemoveOutcome secret_ref (w', e ∷ es) n h = inr (secret_ref, n, h)

  module _ (secret_ref : Bytes) where
    restored-Ends :
        (url : Bytes) (primary : Err) (end : WriteSecret) (w' : World)
        → Had secret_ref url
        → Ends secret_ref (restored primary (set_secret end secret_ref url w'))
    restored-Ends url primary written w' had =
        inr (inr (inr (inl (url, had, find-assign secret_ref url w'.secrets))))
    restored-Ends url primary (broken true cause) w' had = inr (inr (inl (told_last primary)))
    restored-Ends url primary (broken false cause) w' had = inr (inr (inl (told_last primary)))

    -- The value that was read, if one was.
    abbrev Read : Option Bytes → Type 0
    Read none = Unit
    Read (some url) = Had secret_ref url

    restore_loaded-Ends :
        (read : Option Bytes) (primary : Err) (r : Result StoreErr Snapshot) (w' : World)
        → Read read
        → load lib encode_error t.reload w'.store ≡ r
        → Ends secret_ref (restore_loaded lib encode_error t id secret_ref read primary r w')
    unfolding restore_loaded
    restore_loaded-Ends read primary (err e) w' h l = inr (inr (inl (told_last primary)))
    restore_loaded-Ends none primary (ok current) w' h l =
        if_both (Ends secret_ref)
          (not (owns_secret secret_ref (find_subscription id current.subscriptions)))
          (λ free. inr (
            inr (
              inr (
                inr (
                  current,
                  load-Loads lib encode_error t.reload w'.store current l,
                  ground arith,
                )))))
          (λ owned. inr (inr (inl (told_last primary))))
    restore_loaded-Ends (some url) primary (ok current) w' h l =
        if_both (Ends secret_ref)
          (not (owns_secret secret_ref (find_subscription id current.subscriptions)))
          (λ free. inr (
            inr (
              inr (
                inr (
                  current,
                  load-Loads lib encode_error t.reload w'.store current l,
                  ground arith,
                )))))
          (λ owned. restored-Ends url primary t.restore (t.before_restore w') h)

    remove_updated-Ends :
        (read : Option Bytes) (old : List Endpoint) (secrets : List (Bytes × Bytes))
        (x : Updated Err (Unit {0}))
        → Read read
        → find secret_ref secrets ≡ none
        → UpdateTells lib encode_error
            (remove_edit id secret_ref)
            (with_secrets secrets).store.content
            x.1
            x.0.content
        → Ends secret_ref (
            remove_updated lib encode_error t id secret_ref read old
              (in_store (with_secrets secrets) x))
    unfolding remove_updated
    remove_updated-Ends read old secrets (store, ok tt) h gone tells =
        let turns =
          Committed-Turns lib encode_error (remove_edit id secret_ref)
            (with_secrets secrets).store.content store.content tt (IsDropped id secret_ref)
            (λ s s' l e.
              remove_edit-IsDropped id secret_ref s s' (suc s'.revision)
                (Loads-Distinct lib encode_error (with_secrets secrets).store.content s l) e)
            tells in
        (secrets, gone, refl, turns)
    remove_updated-Ends read old secrets (store, err e) h gone tells =
        let w' = t.before_load (record (with_secrets secrets) { store = store }) in
        restore_loaded-Ends read (update_error is_not_found t.update_over e)
          (load lib encode_error t.reload w'.store) w' h refl

    remove_state-Ends :
        (read : Option Bytes) (old : List Endpoint) (secrets : List (Bytes × Bytes))
        → Read read
        → find secret_ref secrets ≡ none
        → Ends secret_ref (
            remove_state lib encode_error t id secret_ref read old
              (record (t.meanwhile w) { secrets = secrets }))
    unfolding remove_state
    remove_state-Ends read old secrets h gone = remove_updated-Ends read old secrets _ h gone (
        update_lem lib encode_error t.update (remove_edit id secret_ref)
          (with_secrets secrets).store)

    after_delete-Ends :
        (url : Bytes) (old : List Endpoint) (end : WriteSecret)
        → t.delete ≡ end
        → Had secret_ref url
        → Ends secret_ref (
            after_delete lib encode_error t id secret_ref url old
              (delete_secret end secret_ref (t.meanwhile w)))
    after_delete-Ends url old written e h =
        remove_state-Ends (some url) old (erase secret_ref (t.meanwhile w).secrets) h
          (find-erase secret_ref (t.meanwhile w).secrets)
    after_delete-Ends url old (broken true cause) e h = inr (inl (λ x. ground arith))
    after_delete-Ends url old (broken false cause) e h = inr (inl (λ x. ground arith))

    remove_secret-Ends :
        (old : List Endpoint) (r : Result SecretErr Bytes)
        → get_secret t.get_error secret_ref (t.meanwhile w) ≡ r
        → Ends secret_ref (remove_secret lib encode_error t id secret_ref old r (t.meanwhile w))
    unfolding remove_secret
    remove_secret-Ends old (err not_found) h =
        remove_state-Ends none old (t.meanwhile w).secrets tt
          (get_secret-missing t.get_error secret_ref (t.meanwhile w) h)
    remove_secret-Ends old (err (failed cause)) h = inl refl
    remove_secret-Ends old (ok url) h = after_delete-Ends url old t.delete refl h

  remove_loaded-RemoveOutcome :
      (r : Result StoreErr Snapshot)
      → load lib encode_error t.load w.store ≡ r
      → RemoveOutcome (remove_loaded lib encode_error t id r w)
  unfolding remove_loaded
  remove_loaded-RemoveOutcome (err e) l = inl refl
  remove_loaded-RemoveOutcome (ok s) l =
      elim (Option-cases (find_subscription id s.subscriptions)) [
        | inl missing ↦ rw (missing, remove_loaded) (inl refl)
        | inr (c, found) ↦
            rw (found, remove_loaded)
              (Ends-RemoveOutcome c.secret_ref _
                (s, c, load-Loads lib encode_error t.load w.store s l, found, refl)
                (remove_secret-Ends c.secret_ref s.endpoints
                  (get_secret t.get_error c.secret_ref (t.meanwhile w)) refl))
      ]

  -- RemoveSubscription, whatever the stores and other processes do. If it succeeds, then the secret
  -- of the subscription that it loaded was gone before the state file was written; the file held a
  -- valid snapshot with a subscription of that ID and that secret, and now holds one of the next
  -- revision without it: no subscription has the ID, no endpoint belongs to it, and the other ones
  -- are as they were. If it fails, then nothing was done; or it had loaded the subscription, and the
  -- secret store failed to delete its secret; or the returned errors include errSecretOperation; or
  -- the secret is in the store with the value that it had; or the state file holds no subscription
  -- of that ID that owns that secret.
  pub remove_subscription_lem : RemoveOutcome (remove_subscription lib encode_error t id w)
  unfolding remove_subscription
  remove_subscription_lem =
      if_both RemoveOutcome (not (valid_identifier id)) (λ bad. inl refl)
        (λ good. remove_loaded-RemoveOutcome (load lib encode_error t.load w.store) refl)
