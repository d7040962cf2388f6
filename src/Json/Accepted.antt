-- ===== src/Json/Accepted.antt =====
-- internal/strictjson/validate.go and internal/rpc/protocol.go: the texts that the walk accepts.
use tui_box.Prelude.{
  ℕ, suc, zero, ◌≤◌, ◌≡◌, ◌↔◌, Bool, true, false, not, ◌||◌, List, [], ◌∷◌, Bytes, same, ◌+◌, arith,
  length, refl, ap, subst, Option, none, some, leb, if_both, ◌∙◌,
}
use tui_box.Store.Snapshot.{holds}
use tui_box.Store.Accepted.{Distinct, distinct_from, distinct_from_iff, no-Missing}
use tui_box.Json.Walk.{
  Token, open_object, close_object, open_array, close_array, scalar, broken, text, Place, value,
  members, elements, and_then, at_end, walk, accepts, unique_object_fields, folded_keys, fold_name,
  no_duplicate_keys,
}
use tui_box.Json.Tree.{
  Value, scalar_value, text_value, object, array, Members, no_members, member, Values, no_values,
  item, tokens, tokens_members, tokens_values, turns, turns_members, turns_values, turns-tokens,
  keys, Fits, FitsMembers, FitsValues,
}

module _ (limit : ℕ) (identity : Bytes → Bytes) (allowed : Bytes → Bool) where
  Distinct-iff :
      (ms : Members)
      → (distinct_from [] (keys limit identity allowed ms) ≡ true)
        ↔ Distinct (keys limit identity allowed ms)
  Distinct-iff ms =
      let both = distinct_from_iff [] (keys limit identity allowed ms) in
      (λ h. (both.0 h).1, λ d. both.1 (no-Missing (keys limit identity allowed ms), d))

  item-walk :
      (fuel depth : ℕ) (v : Value) (ts : List Token)
      → walk limit identity allowed (suc fuel) elements depth (tokens v ts)
        ≡ and_then
            (walk limit identity allowed fuel value depth (tokens v ts))
            (λ us. walk limit identity allowed fuel elements depth us)
  unfolding walk tokens
  item-walk fuel depth scalar_value ts = refl
  item-walk fuel depth (text_value s) ts = refl
  item-walk fuel depth (object ms) ts = refl
  item-walk fuel depth (array vs) ts = refl

  mutual
    unfolding walk tokens turns Fits keys distinct_from

    walk-tokens :
        (fuel depth : ℕ) (v : Value) (rest : List Token)
        → turns v ≤ fuel
        → Fits limit identity allowed depth v
        → walk limit identity allowed fuel value depth (tokens v rest) ≡ some rest
    walk-tokens zero depth scalar_value rest n f = absurd (omega arith)
    walk-tokens zero depth (text_value s) rest n f = absurd (omega arith)
    walk-tokens zero depth (object ms) rest n f = absurd (omega arith)
    walk-tokens zero depth (array vs) rest n f = absurd (omega arith)
    walk-tokens (suc fuel) depth scalar_value rest n f = refl
    walk-tokens (suc fuel) depth (text_value s) rest n f = refl
    walk-tokens (suc fuel) depth (object ms) rest n f =
        let inside =
          walk_members-tokens fuel (suc depth) [] ms rest (omega arith) f.2
            ((Distinct-iff ms).1 f.1) in
        ground (arith, f.0, inside)
    walk-tokens (suc fuel) depth (array vs) rest n f =
        ground (arith, f.0, walk_values-tokens fuel (suc depth) vs rest (omega arith) f.1)

    walk_members-tokens :
        (fuel depth : ℕ) (seen : List Bytes) (ms : Members) (rest : List Token)
        → turns_members ms ≤ fuel
        → FitsMembers limit identity allowed depth ms
        → distinct_from seen (keys limit identity allowed ms) ≡ true
        → walk limit identity allowed fuel (members seen) depth (tokens_members ms rest) ≡ some rest
    walk_members-tokens zero depth seen no_members rest n f d = absurd (omega arith)
    walk_members-tokens zero depth seen (member key v ms) rest n f d = absurd (omega arith)
    walk_members-tokens (suc fuel) depth seen no_members rest n f d = refl
    walk_members-tokens (suc fuel) depth seen (member key v ms) rest n f d =
        let first = walk-tokens fuel depth v (tokens_members ms rest) (omega arith) f.1 in
        let later =
          walk_members-tokens fuel depth (identity key ∷ seen) ms rest (omega arith) f.2
            (ground arith) in
        let free : (holds seen (identity key) || not (allowed key)) ≡ false = ground (arith, f.0) in
        rw (free, first, and_then, later) refl

    walk_values-tokens :
        (fuel depth : ℕ) (vs : Values) (rest : List Token)
        → turns_values vs ≤ fuel
        → FitsValues limit identity allowed depth vs
        → walk limit identity allowed fuel elements depth (tokens_values vs rest) ≡ some rest
    walk_values-tokens zero depth no_values rest n f = absurd (omega arith)
    walk_values-tokens zero depth (item v vs) rest n f = absurd (omega arith)
    walk_values-tokens (suc fuel) depth no_values rest n f = refl
    walk_values-tokens (suc fuel) depth (item v vs) rest n f =
        let first = walk-tokens fuel depth v (tokens_values vs rest) (omega arith) f.0 in
        let later = walk_values-tokens fuel depth vs rest (omega arith) f.1 in
        item-walk fuel depth v (tokens_values vs rest) ∙ rw (first, and_then) later

  -- What the walk has read where it returns the tokens `us` of `ts`.
  abbrev Reads : Place → ℕ → List Token → List Token → Type 0
  Reads value depth ts us = (v : Value) × (ts ≡ tokens v us) × Fits limit identity allowed depth v
  Reads (members seen) depth ts us =
      (ms : Members) × (ts ≡ tokens_members ms us)
      × FitsMembers limit identity allowed depth ms
      × (distinct_from seen (keys limit identity allowed ms) ≡ true)
  Reads elements depth ts us =
      (vs : Values) × (ts ≡ tokens_values vs us) × FitsValues limit identity allowed depth vs

  abbrev Read : Place → ℕ → List Token → Option (List Token) → Type 0
  Read p depth ts none = Unit
  Read p depth ts (some us) = Reads p depth ts us

  Read-member :
      (depth : ℕ) (seen : List Bytes) (key : Bytes) (ts : List Token) (o : Option (List Token))
      (f : List Token → Option (List Token))
      → (holds seen (identity key) || not (allowed key)) ≡ false
      → Read value depth ts o
      → ((us : List Token) → Read (members (identity key ∷ seen)) depth us (f us))
      → Read (members seen) depth (text key ∷ ts) (and_then o f)
  unfolding tokens keys Fits distinct_from
  Read-member depth seen key ts none f free r next = tt
  Read-member depth seen key ts (some us) f free (v, e, fit) next = go (f us) (next us)
    where
      go :
          (o : Option (List Token))
          → Read (members (identity key ∷ seen)) depth us o
          → Read (members seen) depth (text key ∷ ts) o
      go none n = tt
      go (some ws) (ms, e', fits, d) = (
        member key v ms,
        ap (λ x. text key ∷ x) (e ∙ ap (tokens v) e'),
        (ground arith, fit, fits),
        ground (arith, d),
      )

  Read-item :
      (depth : ℕ) (ts : List Token) (o : Option (List Token)) (f : List Token → Option (List Token))
      → Read value depth ts o
      → ((us : List Token) → Read elements depth us (f us))
      → Read elements depth ts (and_then o f)
  unfolding tokens Fits
  Read-item depth ts none f r next = tt
  Read-item depth ts (some us) f (v, e, fit) next = go (f us) (next us)
    where
      go : (o : Option (List Token)) → Read elements depth us o → Read elements depth ts o
      go none n = tt
      go (some ws) (vs, e', fits) = (item v vs, e ∙ ap (tokens v) e', (fit, fits))

  Read-object :
      (depth : ℕ) (ts : List Token) (o : Option (List Token))
      → leb limit depth ≡ false
      → Read (members []) (suc depth) ts o
      → Read value depth (open_object ∷ ts) o
  unfolding tokens Fits
  Read-object depth ts none h r = tt
  Read-object depth ts (some us) h (ms, e, fits, d) =
      (object ms, ap (λ x. open_object ∷ x) e, (ground arith, (Distinct-iff ms).0 d, fits))

  Read-array :
      (depth : ℕ) (ts : List Token) (o : Option (List Token))
      → leb limit depth ≡ false
      → Read elements (suc depth) ts o
      → Read value depth (open_array ∷ ts) o
  unfolding tokens Fits
  Read-array depth ts none h r = tt
  Read-array depth ts (some us) h (vs, e, fits) =
      (array vs, ap (λ x. open_array ∷ x) e, (ground arith, fits))

  -- Whatever the walk accepts are the tokens of something that fits.
  walk-Reads :
      (fuel : ℕ) (p : Place) (depth : ℕ) (ts : List Token)
      → Read p depth ts (walk limit identity allowed fuel p depth ts)
  unfolding walk tokens Fits keys distinct_from
  walk-Reads zero p depth ts = tt
  walk-Reads (suc fuel) value depth [] = tt
  walk-Reads (suc fuel) value depth (scalar ∷ ts) = (scalar_value, refl, tt)
  walk-Reads (suc fuel) value depth (text s ∷ ts) = (text_value s, refl, tt)
  walk-Reads (suc fuel) value depth (open_object ∷ ts) =
      if_both (Read value depth (open_object ∷ ts)) (leb limit depth) (λ deep. tt)
        (λ fits. Read-object depth ts _ fits (walk-Reads fuel (members []) (suc depth) ts))
  walk-Reads (suc fuel) value depth (open_array ∷ ts) =
      if_both (Read value depth (open_array ∷ ts)) (leb limit depth) (λ deep. tt)
        (λ fits. Read-array depth ts _ fits (walk-Reads fuel elements (suc depth) ts))
  walk-Reads (suc fuel) value depth (close_object ∷ ts) = tt
  walk-Reads (suc fuel) value depth (close_array ∷ ts) = tt
  walk-Reads (suc fuel) value depth (broken ∷ ts) = tt
  walk-Reads (suc fuel) (members seen) depth [] = tt
  walk-Reads (suc fuel) (members seen) depth (close_object ∷ ts) = (no_members, refl, tt, refl)
  walk-Reads (suc fuel) (members seen) depth (text key ∷ ts) =
      if_both (Read (members seen) depth (text key ∷ ts))
        (holds seen (identity key) || not (allowed key)) (λ bad. tt)
        (λ free.
          Read-member depth seen key ts (walk limit identity allowed fuel value depth ts)
            (λ us. walk limit identity allowed fuel (members (identity key ∷ seen)) depth us) free
            (walk-Reads fuel value depth ts)
            (λ us. walk-Reads fuel (members (identity key ∷ seen)) depth us))
  walk-Reads (suc fuel) (members seen) depth (open_object ∷ ts) = tt
  walk-Reads (suc fuel) (members seen) depth (open_array ∷ ts) = tt
  walk-Reads (suc fuel) (members seen) depth (close_array ∷ ts) = tt
  walk-Reads (suc fuel) (members seen) depth (scalar ∷ ts) = tt
  walk-Reads (suc fuel) (members seen) depth (broken ∷ ts) = tt
  walk-Reads (suc fuel) elements depth [] = tt
  walk-Reads (suc fuel) elements depth (close_array ∷ ts) = (no_values, refl, tt)
  walk-Reads (suc fuel) elements depth (close_object ∷ ts) = tt
  walk-Reads (suc fuel) elements depth (open_object ∷ ts) =
      Read-item depth (open_object ∷ ts)
        (walk limit identity allowed fuel value depth (open_object ∷ ts))
        (λ us. walk limit identity allowed fuel elements depth us)
        (walk-Reads fuel value depth (open_object ∷ ts)) (λ us. walk-Reads fuel elements depth us)
  walk-Reads (suc fuel) elements depth (open_array ∷ ts) =
      Read-item depth (open_array ∷ ts)
        (walk limit identity allowed fuel value depth (open_array ∷ ts))
        (λ us. walk limit identity allowed fuel elements depth us)
        (walk-Reads fuel value depth (open_array ∷ ts)) (λ us. walk-Reads fuel elements depth us)
  walk-Reads (suc fuel) elements depth (scalar ∷ ts) =
      Read-item depth (scalar ∷ ts) (walk limit identity allowed fuel value depth (scalar ∷ ts))
        (λ us. walk limit identity allowed fuel elements depth us)
        (walk-Reads fuel value depth (scalar ∷ ts)) (λ us. walk-Reads fuel elements depth us)
  walk-Reads (suc fuel) elements depth (broken ∷ ts) =
      Read-item depth (broken ∷ ts) (walk limit identity allowed fuel value depth (broken ∷ ts))
        (λ us. walk limit identity allowed fuel elements depth us)
        (walk-Reads fuel value depth (broken ∷ ts)) (λ us. walk-Reads fuel elements depth us)
  walk-Reads (suc fuel) elements depth (text s ∷ ts) =
      Read-item depth (text s ∷ ts) (walk limit identity allowed fuel value depth (text s ∷ ts))
        (λ us. walk limit identity allowed fuel elements depth us)
        (walk-Reads fuel value depth (text s ∷ ts)) (λ us. walk-Reads fuel elements depth us)

  at_end-none : (o : Option (List Token)) → at_end o ≡ true → o ≡ some []
  at_end-none none h = ground arith
  at_end-none (some []) h = refl
  at_end-none (some (t ∷ ts)) h = ground arith

  accepts-tokens :
      (v : Value)
      → Fits limit identity allowed 0 v
      → accepts limit identity allowed (tokens v []) ≡ true
  unfolding accepts
  accepts-tokens v fits =
      let ts = tokens v [] in
      let enough : turns v ≤ suc (length ts + length ts) = omega (arith, turns-tokens v []) in
      ap at_end (walk-tokens (suc (length ts + length ts)) 0 v [] enough fits)

  -- The strict walk over the tokens of a text, with any limit of the depth, any form in which keys are
  -- compared and any test of a key: it accepts exactly the tokens of a value in which fewer than
  -- `limit` objects and arrays are open around each object and array, no object has two keys of one
  -- form, and every key passes the test.
  pub accepts_iff :
      (ts : List Token)
      → (accepts limit identity allowed ts ≡ true)
        ↔ ((v : Value) × (ts ≡ tokens v []) × Fits limit identity allowed 0 v)
  unfolding accepts
  accepts_iff ts =
      let fuel = suc (length ts + length ts) in
      (
        λ h.
            subst (Read value 0 ts) (at_end-none (walk limit identity allowed fuel value 0 ts) h)
              (walk-Reads fuel value 0 ts),
        λ (v, e, fits). rw e (accepts-tokens v fits),
      )

-- ValidateUniqueObjectFields with folded keys returns nil exactly on the tokens of one value that is
-- nested at most 100 deep and in which no object has two keys that foldName makes equal.
pub unique_object_fields_iff :
    (simple_fold : ℕ → ℕ) (ts : List Token)
    → (unique_object_fields simple_fold folded_keys ts ≡ true)
      ↔ ((v : Value) × (ts ≡ tokens v []) × Fits 100 (fold_name simple_fold) (λ k. true) 0 v)
unfolding unique_object_fields
unique_object_fields_iff simple_fold ts = accepts_iff 100 (fold_name simple_fold) (λ k. true) ts

-- rejectDuplicateKeys returns nil exactly on the tokens of one value that is nested at most 32 deep,
-- in which every key is its own lower case and no object has a key twice.
pub no_duplicate_keys_iff :
    (to_lower : Bytes → Bytes) (ts : List Token)
    → (no_duplicate_keys to_lower ts ≡ true)
      ↔ ((v : Value) × (ts ≡ tokens v []) × Fits 32 to_lower (λ k. same k (to_lower k)) 0 v)
unfolding no_duplicate_keys
no_duplicate_keys_iff to_lower ts = accepts_iff 32 to_lower (λ k. same k (to_lower k)) ts
