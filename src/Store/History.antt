-- ===== src/Store/History.antt =====
-- internal/state/store.go: the revisions of the state file over runs of operations.
use tui_box.Prelude.{
  ℕ, suc, ◌≤◌, ◌<◌, ◌≡◌, ◌⊎◌, inl, inr, refl, subst, sym, ◌∙◌, true, not, Option, none,
  Option-cases, if_both, option_both, arith,
}
use tui_box.Prelude.Results.{Result, ok, err}
use tui_box.Domain.Checks.{Library}
use tui_box.Store.Snapshot.{Snapshot, valid_snapshot}
use tui_box.Store.File.{
  StoreErr, Content, decodes, Store, Access, load_content, unless, load_locked, save, save_over,
}
use tui_box.Store.Commits.{IsNext, Told, save_over-Tells}
use tui_box.Store.Runs.{Loads, Moves, Reach, here, next, Step-Moves}

valid-revision :
    (lib : Library) (s : Snapshot) (r : ℕ)
    → valid_snapshot lib s ≡ true
    → valid_snapshot lib (record s { revision = r }) ≡ true
unfolding valid_snapshot
valid-revision lib s r v = v

module _ (lib : Library) (encode_error : Snapshot → Option StoreErr) where
  pub IsNext-Loads :
      (s s' : Snapshot) (c : Content)
      → IsNext lib s s' c
      → Loads lib encode_error c (record s' { revision = suc s'.revision })
  unfolding load_content
  IsNext-Loads s s' c n =
      rw n.written (rw (valid-revision lib s' (suc s'.revision) n.is_valid) refl)

  -- The file still holds what it held, or a snapshot of a later revision.
  abbrev pub Follows : Content → Snapshot → Content → Type 0
  Follows c s c' =
      (s' : Snapshot) × Loads lib encode_error c' s' × ((c' ≡ c) ⊎ (s.revision < s'.revision))

  same-Loads :
      (c : Content) (s s' : Snapshot)
      → Loads lib encode_error c s
      → Loads lib encode_error c s'
      → s.revision ≡ s'.revision
  same-Loads c s s' l l' = cc

  later_or_same :
      (c c' : Content) (s s' : Snapshot)
      → Loads lib encode_error c s
      → Loads lib encode_error c' s'
      → (c' ≡ c) ⊎ (s.revision < s'.revision)
      → s.revision ≤ s'.revision
  later_or_same c c' s s' l l' (inl same) =
      let even : s.revision ≡ s'.revision = same-Loads c s s' l (rw (sym same) l') in omega arith
  later_or_same c c' s s' l l' (inr later) = omega arith

  Follows-Moves :
      (c c' c'' : Content) (s : Snapshot)
      → Loads lib encode_error c s
      → Follows c s c'
      → Moves lib encode_error c' c''
      → Follows c s c''
  Follows-Moves c c' c'' s k (s', l, inl same) (inl still) = (s', rw still l, inl (still ∙ same))
  Follows-Moves c c' c'' s k (s', l, inr later) (inl still) = (s', rw still l, inr later)
  Follows-Moves c c' c'' s k (s', l, f) (inr (u, u', lu, n)) = (
    record u' { revision = suc u'.revision },
    IsNext-Loads u u' c'' n,
    inr (omega (arith, n.from, same-Loads c' u s' lu l, later_or_same c c' s s' k l f)),
  )

  -- Whatever operations any processes run on a file that can be loaded, and however they fail: the
  -- file can still be loaded, and either it is unchanged or its revision has grown.
  pub revision_tells :
      {p q : Store} (s : Snapshot)
      → Reach lib encode_error p q
      → Loads lib encode_error p.content s
      → Follows p.content s q.content
  revision_tells s here l = (s, l, inl refl)
  revision_tells s (next r st) l =
      Follows-Moves _ _ _ s l (revision_tells s r l) (Step-Moves lib encode_error st)

  -- A save that returns nil found the saved snapshot's revision in the file.
  abbrev Saved : Snapshot → Content → Store × Option StoreErr → Type 0
  Saved s' c x =
      x.1 ≡ none → (s : Snapshot) × Loads lib encode_error c s × IsNext lib s s' x.0.content

  save_over-Saved :
      (t : Access) (s' : Snapshot) (r : Result StoreErr Snapshot) (q : Store)
      → load_content lib encode_error q.content ≡ r
      → valid_snapshot lib s' ≡ true
      → Saved s' q.content (save_over lib encode_error t.write_end s' r q)
  unfolding save_over
  save_over-Saved t s' (err e) q l v = λ h. cc
  save_over-Saved t s' (ok s) q l v = λ h. (s, l, told h)
    where
      told :
          (save_over lib encode_error t.write_end s' (ok s) q).1 ≡ none
          → IsNext lib s s' (save_over lib encode_error t.write_end s' (ok s) q).0.content
      told h =
          subst
            (λ o.
              Told lib s s' o q.content
                (save_over lib encode_error t.write_end s' (ok s) q).0.content)
            h (save_over-Tells lib encode_error t.write_end s' s q v)

  save-Saved :
      (t : Access) (s' : Snapshot) (q : Store) → Saved s' q.content (save lib encode_error t s' q)
  unfolding save load_locked save_over
  save-Saved t s' q =
      if_both (Saved s' q.content) q.closed (λ c h. cc)
        (λ c.
          if_both (Saved s' q.content) (not (valid_snapshot lib s')) (λ b h. cc)
            (λ good.
              option_both (Saved s' q.content) (encode_error s')
                (elim (Option-cases t.lock_error) [
                  | inr (e, locked) ↦ rw (locked, unless, save_over) (λ h. cc)
                  | inl free ↦ elim (Option-cases t.load_error) [
                    | inr (e, unread) ↦ rw (free, unread, unless, save_over) (λ h. cc)
                    | inl found ↦
                        rw (free, found, unless)
                          (save_over-Saved t s' (load_content lib encode_error q.content) q refl
                            (ground arith))
                  ]
                ])
                (λ e h. cc)))

  unmoved :
      (c c' : Content) (s s' u : Snapshot)
      → Loads lib encode_error c' u
      → Loads lib encode_error c' s'
      → s.revision ≡ u.revision
      → (c' ≡ c) ⊎ (s.revision < s'.revision)
      → c' ≡ c
  unmoved c c' s s' u lu l e (inl same) = same
  unmoved c c' s s' u lu l e (inr later) = absurd (omega (arith, same-Loads c' u s' lu l))

  -- Optimistic locking: a process loads a snapshot, any processes run any operations, and then it
  -- saves a snapshot of the revision that it has loaded. If the save returns nil, the file was not
  -- changed since it was loaded, so nothing of the others is lost, and the file now holds what was
  -- saved, under the next revision.
  pub save_exclusive :
      {p q : Store} (s s' : Snapshot) (t : Access)
      → Reach lib encode_error p q
      → Loads lib encode_error p.content s
      → s'.revision ≡ s.revision
      → (save lib encode_error t s' q).1 ≡ none
      → (q.content ≡ p.content)
        × ((save lib encode_error t s' q).0.content
            ≡ decodes (record s' { revision = suc s'.revision }))
  save_exclusive {p} {q} s s' t r l e h =
      let (s'', l'', f) = revision_tells s r l in
      let (u, lu, n) = save-Saved t s' q h in
      (unmoved p.content q.content s s'' u lu l'' (omega (arith, n.from, e)) f, n.written)
