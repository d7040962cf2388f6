-- ===== src/Store/Updates.antt =====
-- internal/state/store.go: UpdateContext as a transaction on the state file.
use tui_box.Prelude.{
  ◌≡◌, ◌⊎◌, inl, inr, refl, not, Option, none, some, ◌==◌, if_both, Option-cases, arith,
}
use tui_box.Prelude.Results.{Result, ok, err}
use tui_box.Domain.Checks.{Library}
use tui_box.Store.Snapshot.{Snapshot, valid_snapshot}
use tui_box.Store.File.{
  StoreErr, conflict, store_closed, store_failed, invalid_state, canceled, deadline_exceeded,
  Content, Store, WriteEnd, Access, Edit, reject, accept, Failure, of_store, of_edit, unless,
  load_content, load_locked, finish, Updated, commit, update_over, update,
}
use tui_box.Store.Commits.{IsNext, Tells, write_next-Tells}

module _ (lib : Library) (encode_error : Snapshot → Option StoreErr) {E A : Type 0} where
  -- The callback's snapshot was written over the one that it was given.
  abbrev pub Committed : (Snapshot → Edit E A) → Content → A → Content → Type 0
  Committed edit c a c' =
      (s : Snapshot) × (s' : Snapshot) × (load_content lib encode_error c ≡ ok s)
      × (edit s ≡ accept s' a)
      × IsNext lib s s' c'

  -- Nothing was written, and the callback refused the snapshot of the file.
  abbrev pub Refused : (Snapshot → Edit E A) → Content → E → Content → Type 0
  Refused edit c e c' =
      (s : Snapshot) × (load_content lib encode_error c ≡ ok s) × (edit s ≡ reject e) × (c' ≡ c)

  abbrev pub UpdateTells : (Snapshot → Edit E A) → Content → Result (Failure E) A → Content → Type 0
  UpdateTells edit c (ok a) c' = Committed edit c a c'
  UpdateTells edit c (err (of_edit e)) c' = Refused edit c e c'
  UpdateTells edit c (err (of_store store_failed)) c' = (c' ≡ c) ⊎ ((a : A) × Committed edit c a c')
  UpdateTells edit c (err (of_store e)) c' = c' ≡ c

  abbrev Fits : (Snapshot → Edit E A) → Content → Updated E A → Type 0
  Fits edit c x = UpdateTells edit c x.1 x.0.content

  unchanged :
      (edit : Snapshot → Edit E A) (e : StoreErr) (store : Store)
      → Fits edit store.content (store, err (of_store e))
  unchanged edit store_failed store = inl refl
  unchanged edit conflict store = refl
  unchanged edit store_closed store = refl
  unchanged edit invalid_state store = refl
  unchanged edit canceled store = refl
  unchanged edit deadline_exceeded store = refl

  finish-Fits :
      (edit : Snapshot → Edit E A) (s s' : Snapshot) (a : A) (c : Content)
      (x : Store × Option StoreErr)
      → load_content lib encode_error c ≡ ok s
      → edit s ≡ accept s' a
      → Tells lib encode_error s s' c x
      → Fits edit c (finish a x)
  finish-Fits edit s s' a c (store, none) l e n = (s, s', l, e, n)
  finish-Fits edit s s' a c (store, some store_failed) l e (inl same) = inl same
  finish-Fits edit s s' a c (store, some store_failed) l e (inr n) = inr (a, (s, s', l, e, n))
  finish-Fits edit s s' a c (store, some conflict) l e n = n
  finish-Fits edit s s' a c (store, some store_closed) l e n = n
  finish-Fits edit s s' a c (store, some invalid_state) l e n = n
  finish-Fits edit s s' a c (store, some canceled) l e n = n
  finish-Fits edit s s' a c (store, some deadline_exceeded) l e n = n

  commit-Fits :
      (w : WriteEnd) (edit : Snapshot → Edit E A) (s : Snapshot) (o : Edit E A) (store : Store)
      → load_content lib encode_error store.content ≡ ok s
      → edit s ≡ o
      → Fits edit store.content (commit lib encode_error w s.revision o store)
  unfolding commit
  commit-Fits w edit s (reject e) store l h = (s, l, h, refl)
  commit-Fits w edit s (accept s' a) store l h =
      if_both (Fits edit store.content) (not (s'.revision == s.revision)) (λ moved. refl)
        (λ same_one.
          if_both (Fits edit store.content) (not (valid_snapshot lib s')) (λ bad. refl)
            (λ good.
              finish-Fits edit s s' a store.content _ l h
                (write_next-Tells lib encode_error w s s' store (ground arith) (ground arith))))

  update_over-Fits :
      (w : WriteEnd) (edit : Snapshot → Edit E A) (r : Result StoreErr Snapshot) (store : Store)
      → load_content lib encode_error store.content ≡ r
      → Fits edit store.content (update_over lib encode_error w edit r store)
  unfolding update_over
  update_over-Fits w edit (err e) store l = unchanged edit e store
  update_over-Fits w edit (ok s) store l = commit-Fits w edit s (edit s) store l refl

  -- Update on a store, whatever the file system does. If it returns nil, the callback accepted the
  -- valid snapshot that the file held (a new one if there was no file), and the file now holds the
  -- callback's snapshot, which is valid and keeps the revision, under the next revision. If the
  -- callback failed, or the store failed with any error but errStateStore, the file is unchanged.
  -- With errStateStore it is unchanged or holds what the callback made of it.
  pub update_lem :
      (t : Access) (edit : Snapshot → Edit E A) (store : Store)
      → UpdateTells edit store.content
          (update lib encode_error t edit store).1
          (update lib encode_error t edit store).0.content
  unfolding update load_locked
  update_lem t edit store =
      if_both (Fits edit store.content) store.closed (λ c. refl)
        (λ open_yet. elim (Option-cases t.lock_error) [
          | inr (e, locked) ↦ rw (locked, unless, update_over) (unchanged edit e store)
          | inl free ↦ elim (Option-cases t.load_error) [
            | inr (e, failed_early) ↦
                rw (free, failed_early, unless, update_over) (unchanged edit e store)
            | inl found ↦
                rw (free, found, unless)
                  (update_over-Fits t.write_end edit (load_content lib encode_error store.content)
                    store refl)
          ]
        ])
