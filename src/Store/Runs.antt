-- ===== src/Store/Runs.antt =====
-- internal/state/store.go: the state file over every sequence of operations, of one process or of
-- several.
use tui_box.Prelude.{
  ◌≡◌, ◌⊎◌, inl, inr, refl, Bool, true, not, Option, none, some, [], Option-cases, ◌==◌, if_both,
  option_both, arith, Bytes, List, length, ◌||◌,
}
use tui_box.Prelude.Results.{Result, ok, err}
use tui_box.Domain.Checks.{Library}
use tui_box.Domain.Types.{Endpoint}
use tui_box.Domain.Endpoint.{max_id_length}
use tui_box.Store.Snapshot.{Snapshot, valid_snapshot, valid_state_string}
use tui_box.Store.File.{
  StoreErr, conflict, store_closed, store_failed, invalid_state, canceled, deadline_exceeded,
  Content, Store, WriteEnd, Access, Edit, Failure, of_store, of_edit, unless, load_content,
  load_locked, save_over, save, update, commit_subscription_refresh, valid_refresh_endpoints,
  replace_endpoints, close,
}
use tui_box.Store.Commits.{IsNext, Told, save_over-Tells}
use tui_box.Store.Updates.{UpdateTells, update_lem}

module _ (lib : Library) (encode_error : Snapshot → Option StoreErr) where
  abbrev pub Loads : Content → Snapshot → Type 0
  Loads c s = load_content lib encode_error c ≡ ok s

  -- The file is as it was, or has the next revision.
  abbrev pub Moves : Content → Content → Type 0
  Moves c c' = (c' ≡ c) ⊎ ((s : Snapshot) × (s' : Snapshot) × Loads c s × IsNext lib s s' c')

  Told-Moves :
      (s s' : Snapshot) (o : Option StoreErr) (c c' : Content)
      → Loads c s
      → Told lib s s' o c c'
      → Moves c c'
  Told-Moves s s' none c c' l n = inr (s, s', l, n)
  Told-Moves s s' (some store_failed) c c' l (inl same) = inl same
  Told-Moves s s' (some store_failed) c c' l (inr n) = inr (s, s', l, n)
  Told-Moves s s' (some conflict) c c' l n = inl n
  Told-Moves s s' (some store_closed) c c' l n = inl n
  Told-Moves s s' (some invalid_state) c c' l n = inl n
  Told-Moves s s' (some canceled) c c' l n = inl n
  Told-Moves s s' (some deadline_exceeded) c c' l n = inl n

  UpdateTells-Moves :
      {E A : Type 0} (edit : Snapshot → Edit E A) (c c' : Content) (r : Result (Failure E) A)
      → UpdateTells lib encode_error edit c r c'
      → Moves c c'
  UpdateTells-Moves edit c c' (ok a) (s, s', l, e, n) = inr (s, s', l, n)
  UpdateTells-Moves edit c c' (err (of_edit e)) (s, l, h, same) = inl same
  UpdateTells-Moves edit c c' (err (of_store store_failed)) (inl same) = inl same
  UpdateTells-Moves edit c c' (err (of_store store_failed)) (inr (a, (s, s', l, e, n))) =
      inr (s, s', l, n)
  UpdateTells-Moves edit c c' (err (of_store conflict)) same = inl same
  UpdateTells-Moves edit c c' (err (of_store store_closed)) same = inl same
  UpdateTells-Moves edit c c' (err (of_store invalid_state)) same = inl same
  UpdateTells-Moves edit c c' (err (of_store canceled)) same = inl same
  UpdateTells-Moves edit c c' (err (of_store deadline_exceeded)) same = inl same

  abbrev Leads {ℓ} : {B : Type ℓ} → Content → Store × B → Type 0
  Leads c x = Moves c x.0.content

  save_over-Leads :
      (w : WriteEnd) (s' : Snapshot) (r : Result StoreErr Snapshot) (store : Store)
      → load_content lib encode_error store.content ≡ r
      → valid_snapshot lib s' ≡ true
      → Leads store.content (save_over lib encode_error w s' r store)
  unfolding save_over
  save_over-Leads w s' (err e) store l v = inl refl
  save_over-Leads w s' (ok s) store l v =
      Told-Moves s s' (save_over lib encode_error w s' (ok s) store).1 store.content _ l
        (save_over-Tells lib encode_error w s' s store v)

  save-Moves :
      (t : Access) (s : Snapshot) (store : Store)
      → Leads store.content (save lib encode_error t s store)
  unfolding save load_locked save_over
  save-Moves t s store =
      if_both (Leads store.content) store.closed (λ c. inl refl)
        (λ c.
          if_both (Leads store.content) (not (valid_snapshot lib s)) (λ b. inl refl)
            (λ good.
              option_both (Leads store.content) (encode_error s)
                (elim (Option-cases t.lock_error) [
                  | inr (e, locked) ↦ rw (locked, unless, save_over) (inl refl)
                  | inl free ↦ elim (Option-cases t.load_error) [
                    | inr (e, unread) ↦ rw (free, unread, unless, save_over) (inl refl)
                    | inl found ↦
                        rw (free, found, unless)
                          (save_over-Leads t.write_end s
                            (load_content lib encode_error store.content) store refl (ground arith))
                  ]
                ])
                (λ e. inl refl)))

  update-Moves :
      {E A : Type 0} (t : Access) (edit : Snapshot → Edit E A) (store : Store)
      → Leads store.content (update lib encode_error t edit store)
  update-Moves t edit store =
      UpdateTells-Moves edit store.content _ (update lib encode_error t edit store).1
        (update_lem lib encode_error t edit store)

  refresh-Moves :
      (t : Access) (id : Bytes) (es : List Endpoint) (refresh_failed : Bool) (store : Store)
      → Leads store.content
          (commit_subscription_refresh lib encode_error t id es refresh_failed store)
  unfolding commit_subscription_refresh
  refresh-Moves t id es refresh_failed store =
      if_both (Leads store.content) store.closed (λ c. inl refl)
        (λ c.
          if_both (Leads store.content) (not (valid_state_string lib id max_id_length true))
            (λ b. inl refl)
            (λ g.
              if_both (Leads store.content) (refresh_failed || length es == 0) (λ b. inl refl)
                (λ g'.
                  if_both (Leads store.content)
                    (not (valid_refresh_endpoints lib encode_error id [] es)) (λ b. inl refl)
                    (λ v. update-Moves t (replace_endpoints id es) store))))

  -- An operation of any process that has the file open.
  pub data Step : Store → Store → Type 1 where
    update_step :
        {E A : Type 0} (t : Access) (edit : Snapshot → Edit E A) (s : Store)
        → Step s (update lib encode_error t edit s).0
    save_step :
        (t : Access) (saved : Snapshot) (s : Store) → Step s (save lib encode_error t saved s).0
    refresh_step :
        (t : Access) (id : Bytes) (es : List Endpoint) (refresh_failed : Bool) (s : Store)
        → Step s (commit_subscription_refresh lib encode_error t id es refresh_failed s).0
    close_step : (s : Store) → Step s (close s)

  pub data Reach (s : Store) : Store → Type 1 where
    here : Reach s s
    next : {t u : Store} → Reach s t → Step t u → Reach s u

  pub Step-Moves : {p q : Store} → Step p q → Moves p.content q.content
  Step-Moves (update_step t edit s) = update-Moves t edit s
  Step-Moves (save_step t saved s) = save-Moves t saved s
  Step-Moves (refresh_step t id es refresh_failed s) = refresh-Moves t id es refresh_failed s
  Step-Moves (close_step s) = unfold close in inl refl
