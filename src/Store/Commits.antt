-- ===== src/Store/Commits.antt =====
-- internal/state/store.go: what a write of the state file does, and what its error tells.
use tui_box.Prelude.{
  suc, ◌≡◌, ◌≢◌, ◌⊎◌, inl, inr, refl, ◌∙◌, true, not, Option, none, some, ◌==◌, Bool-cases, if_both,
  option_both, arith,
}
use tui_box.Prelude.Results.{ok, err}
use tui_box.Domain.Checks.{Library}
use tui_box.Store.Snapshot.{Snapshot, valid_snapshot, max_revision}
use tui_box.Store.File.{
  StoreErr, conflict, store_closed, store_failed, invalid_state, canceled, deadline_exceeded,
  Content, decodes, Store, WriteEnd, refused, stopped, unconfirmed, done, increment_revision,
  write_encoded, write_locked, write_next, save_over,
}

increment_cases :
    (s : Snapshot)
    → (increment_revision s ≡ err invalid_state)
      ⊎ ((s.revision ≢ max_revision)
          × (increment_revision s ≡ ok (record s { revision = suc s.revision })))
unfolding increment_revision
increment_cases s = elim (Bool-cases (s.revision == max_revision)) [
  | inl full ↦ inl (rw full refl)
  | inr more ↦ inr (ground arith, rw more refl)
]

module _ (lib : Library) where
  -- The file gets the successor of the snapshot `s` that it held: `s'` with the next revision.
  pub record IsNext (s s' : Snapshot) (c : Content) : Type 0 where
    pub from : s'.revision ≡ s.revision
    pub is_valid : valid_snapshot lib s' ≡ true
    pub bounded : s.revision ≢ max_revision
    pub written : c ≡ decodes (record s' { revision = suc s'.revision })

  -- What an error tells of the file: nothing was written, but after errStateStore the write may
  -- have been made.
  abbrev pub Told : Snapshot → Snapshot → Option StoreErr → Content → Content → Type 0
  Told s s' none c c' = IsNext s s' c'
  Told s s' (some store_failed) c c' = (c' ≡ c) ⊎ IsNext s s' c'
  Told s s' (some e) c c' = c' ≡ c

  pub Told-unchanged : (s s' : Snapshot) (e : StoreErr) (c : Content) → Told s s' (some e) c c
  Told-unchanged s s' store_failed c = inl refl
  Told-unchanged s s' conflict c = refl
  Told-unchanged s s' store_closed c = refl
  Told-unchanged s s' invalid_state c = refl
  Told-unchanged s s' canceled c = refl
  Told-unchanged s s' deadline_exceeded c = refl

  module _ (encode_error : Snapshot → Option StoreErr) where
    abbrev pub Tells : Snapshot → Snapshot → Content → Store × Option StoreErr → Type 0
    Tells s s' c x = Told s s' x.1 c x.0.content

    write_encoded-Tells :
        (w : WriteEnd) (s s' : Snapshot) (store : Store)
        → IsNext s s' (decodes (record s' { revision = suc s'.revision }))
        → Tells s s' store.content
            (write_encoded lib encode_error w (record s' { revision = suc s'.revision }) store)
    unfolding write_encoded
    write_encoded-Tells refused s s' store n = inl refl
    write_encoded-Tells stopped s s' store n = inl refl
    write_encoded-Tells unconfirmed s s' store n = inr n
    write_encoded-Tells done s s' store n = n

    write_locked-Tells :
        (w : WriteEnd) (s s' : Snapshot) (store : Store)
        → IsNext s s' (decodes (record s' { revision = suc s'.revision }))
        → Tells s s' store.content
            (write_locked lib encode_error w (record s' { revision = suc s'.revision }) store)
    unfolding write_locked
    write_locked-Tells refused s s' store n = inl refl
    write_locked-Tells stopped s s' store n =
        option_both (Tells s s' store.content)
          (encode_error (record s' { revision = suc s'.revision }))
          (write_encoded-Tells stopped s s' store n) (λ e. Told-unchanged s s' e store.content)
    write_locked-Tells unconfirmed s s' store n =
        option_both (Tells s s' store.content)
          (encode_error (record s' { revision = suc s'.revision }))
          (write_encoded-Tells unconfirmed s s' store n) (λ e. Told-unchanged s s' e store.content)
    write_locked-Tells done s s' store n =
        option_both (Tells s s' store.content)
          (encode_error (record s' { revision = suc s'.revision }))
          (write_encoded-Tells done s s' store n) (λ e. Told-unchanged s s' e store.content)

    pub write_next-Tells :
        (w : WriteEnd) (s s' : Snapshot) (store : Store)
        → s'.revision ≡ s.revision
        → valid_snapshot lib s' ≡ true
        → Tells s s' store.content (write_next lib encode_error w s' store)
    unfolding write_next
    write_next-Tells w s s' store r v = elim (increment_cases s') [
      | inl full ↦ rw (full, write_next) refl
      | inr (more, next) ↦
          rw (next, write_next)
            (write_locked-Tells w s s' store
              (record { from = r; is_valid = v; bounded = λ e. more (r ∙ e); written = refl }))
    ]

    -- Saving: the file is written only if its revision is that of the saved snapshot.
    pub save_over-Tells :
        (w : WriteEnd) (s' s : Snapshot) (store : Store)
        → valid_snapshot lib s' ≡ true
        → Tells s s' store.content (save_over lib encode_error w s' (ok s) store)
    unfolding save_over
    save_over-Tells w s' s store v =
        if_both (Tells s s' store.content) (not (s'.revision == s.revision)) (λ other. refl)
          (λ same_one. write_next-Tells w s s' store (ground arith) v)
