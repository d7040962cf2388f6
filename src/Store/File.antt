-- ===== src/Store/File.antt =====
-- internal/state/store.go: the operations of Store. The file lock lets one of them run at a time,
-- also across processes, so each is a function on the file; what else it observes is an argument.
use tui_box.Prelude.{
  ℕ, suc, Bool, true, false, not, ◌&&◌, ◌||◌, Option, none, some, List, [], ◌∷◌, ◌++◌, Bytes, same,
  ◌==◌, any, length, if◌then◌else◌,
}
use tui_box.Prelude.Results.{Result, ok, err}
use tui_box.Domain.Checks.{Library}
use tui_box.Domain.Types.{Endpoint}
use tui_box.Domain.Endpoint.{validate, max_id_length}
use tui_box.Domain.Subscription.{Subscription}
use tui_box.Store.Snapshot.{
  Snapshot, new_snapshot, valid_snapshot, valid_state_string, max_revision, holds, is_ok,
}

-- The errors of the store; the last two are those of a context.
pub data StoreErr : Type 0 where
  conflict store_closed store_failed invalid_state canceled deadline_exceeded : StoreErr

-- The state file: none, one that the strict decoder refuses, or what it decodes to.
pub data Content : Type 0 where
  absent undecodable : Content
  decodes : Snapshot → Content

-- Store, with the file that its directory holds.
pub record Store : Type 0 where
  pub closed : Bool
  pub content : Content

-- How writeLocked ends: refused before the snapshot is encoded, stopped before the rename or by it,
-- renamed but not confirmed, or done. All but the last are errStateStore.
pub data WriteEnd : Type 0 where
  refused stopped unconfirmed done : WriteEnd

-- What an operation observes: the error of the lock, that of reading the file, and the write.
pub record Access : Type 0 where
  pub lock_error : Option StoreErr
  pub load_error : Option StoreErr
  pub write_end : WriteEnd

-- What the callback of Update makes of the snapshot; `A` is what it keeps in variables of its own.
pub data Edit (E A : Type 0) : Type 0 where
  reject : E → Edit E A
  accept : Snapshot → A → Edit E A

-- Why Update fails: the store's own error, or the callback's.
pub data Failure (E : Type 0) : Type 0 where
  of_store : StoreErr → Failure E
  of_edit : E → Failure E

-- `if err != nil { return … }` on an error that is observed.
abbrev pub unless {ℓ} : {A : Type ℓ} → Option StoreErr → Result StoreErr A → Result StoreErr A
unless none r = r
unless (some e) r = err e

-- What Update returns: the error, or what the callback kept.
abbrev pub Updated : Type 0 → Type 0 → Type 0
Updated E A = Store × Result (Failure E) A

abbrev pub finish : {E A : Type 0} → A → Store × Option StoreErr → Updated E A
finish a (store, none) = (store, ok a)
finish a (store, some e) = (store, err (of_store e))

-- incrementRevision
unfoldable pub increment_revision : Snapshot → Result StoreErr Snapshot
increment_revision s =
    if s.revision == max_revision
    then err invalid_state
    else ok (record s { revision = suc s.revision })

unfoldable pub has_subscription : List Subscription → Bytes → Bool
has_subscription subs id = any (λ s. same s.id id) subs

-- `if endpoint.SubscriptionID != id { kept = append(kept, endpoint) }`
unfoldable pub others : Bytes → List Endpoint → List Endpoint
others id [] = []
others id (e ∷ rest) =
    let kept = others id rest in if same e.subscription_id id then kept else e ∷ kept

-- The callback of CommitSubscriptionRefreshContext.
unfoldable pub replace_endpoints : Bytes → List Endpoint → Snapshot → Edit StoreErr Bool
unfolding has_subscription others
replace_endpoints id es s =
    if not (has_subscription s.subscriptions id)
    then reject invalid_state
    else accept (record s { endpoints = others id s.endpoints ++ es }) true

-- `lib` is the validators' library; `encode_error` is the error of encodeSnapshot, if any.
module _ (lib : Library) (encode_error : Snapshot → Option StoreErr) where
  -- The end of loadLocked, on what was decoded.
  unfoldable pub load_content : Content → Result StoreErr Snapshot
  load_content absent = ok new_snapshot
  load_content undecodable = err invalid_state
  load_content (decodes s) = if valid_snapshot lib s then ok s else err invalid_state

  -- loadLocked
  unfoldable pub load_locked : Access → Content → Result StoreErr Snapshot
  unfolding load_content
  load_locked t c = unless t.load_error (load_content c)

  -- LoadContext
  unfoldable pub load : Access → Store → Result StoreErr Snapshot
  unfolding load_locked
  load t s = if s.closed then err store_closed else unless t.lock_error (load_locked t s.content)

  -- writeLocked
  unfoldable pub write_encoded : WriteEnd → Snapshot → Store → Store × Option StoreErr
  write_encoded refused s store = (store, some store_failed)
  write_encoded stopped s store = (store, some store_failed)
  write_encoded unconfirmed s store = (record store { content = decodes s }, some store_failed)
  write_encoded done s store = (record store { content = decodes s }, none)

  unfoldable pub write_locked : WriteEnd → Snapshot → Store → Store × Option StoreErr
  unfolding write_encoded
  write_locked refused s store = (store, some store_failed)
  write_locked w s store = elim (encode_error s) [
    | some e ↦ (store, some e)
    | none ↦ write_encoded w s store
  ]

  -- The new revision of a snapshot is written.
  unfoldable pub write_next : WriteEnd → Snapshot → Store → Store × Option StoreErr
  unfolding increment_revision write_locked
  write_next w s store = elim (increment_revision s) [
    | err e ↦ (store, some e)
    | ok s' ↦ write_locked w s' store
  ]

  -- SaveContext, once the file was loaded.
  unfoldable pub save_over :
      WriteEnd → Snapshot → Result StoreErr Snapshot → Store → Store × Option StoreErr
  unfolding write_next
  save_over w s (err e) store = (store, some e)
  save_over w s (ok current) store =
      if not (s.revision == current.revision) then (store, some conflict) else write_next w s store

  -- SaveContext
  unfoldable pub save : Access → Snapshot → Store → Store × Option StoreErr
  unfolding save_over
  save t s store =
      if store.closed
      then (store, some store_closed)
      else if not (valid_snapshot lib s)
      then (store, some invalid_state)
      else elim (encode_error s) [
        | some e ↦ (store, some e)
        | none ↦ save_over t.write_end s (unless t.lock_error (load_locked t store.content)) store
      ]

  module _ {E A : Type 0} where
    -- The callback has returned; `revision` is that of the snapshot before it.
    unfoldable pub commit : WriteEnd → ℕ → Edit E A → Store → Updated E A
    unfolding write_next
    commit w revision (reject e) store = (store, err (of_edit e))
    commit w revision (accept s a) store =
        if not (s.revision == revision)
        then (store, err (of_store invalid_state))
        else if not (valid_snapshot lib s)
        then (store, err (of_store invalid_state))
        else finish a (write_next w s store)

    unfoldable pub update_over :
        WriteEnd → (Snapshot → Edit E A) → Result StoreErr Snapshot → Store → Updated E A
    unfolding commit
    update_over w edit (err e) store = (store, err (of_store e))
    update_over w edit (ok current) store = commit w current.revision (edit current) store

    -- UpdateContext
    unfoldable pub update : Access → (Snapshot → Edit E A) → Store → Updated E A
    unfolding update_over
    update t edit store =
        if store.closed
        then (store, err (of_store store_closed))
        else update_over t.write_end edit (unless t.lock_error (load_locked t store.content)) store

  -- validateRefreshEndpoints
  unfoldable pub valid_refresh_endpoints : Bytes → List Bytes → List Endpoint → Bool
  valid_refresh_endpoints id seen [] = true
  valid_refresh_endpoints id seen (e ∷ rest) =
      same e.subscription_id id
      && is_ok (validate lib e)
      && not (holds seen e.id)
      && valid_refresh_endpoints id (e.id ∷ seen) rest

  -- CommitSubscriptionRefreshContext; `refresh_failed` is refreshErr != nil.
  unfoldable pub commit_subscription_refresh :
      Access → Bytes → List Endpoint → Bool → Store → Store × Result (Failure StoreErr) Bool
  unfolding update replace_endpoints valid_refresh_endpoints
  commit_subscription_refresh t id es refresh_failed store =
      if store.closed
      then (store, err (of_store store_closed))
      else if not (valid_state_string lib id max_id_length true)
      then (store, err (of_store invalid_state))
      else if refresh_failed || length es == 0
      then (store, ok false)
      else if not (valid_refresh_endpoints id [] es)
      then (store, err (of_store invalid_state))
      else update t (replace_endpoints id es) store

-- Close
unfoldable pub close : Store → Store
close s = record s { closed = true }
