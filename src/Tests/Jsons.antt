-- ===== src/Tests/Jsons.antt =====
-- JSON texts at concrete inputs.
use tui_box.Prelude.{◌≡◌, ◌↔◌, refl, true, false, List, [], ◌∷◌, bytes, same}
use tui_box.Json.Walk.{
  Token, open_object, close_object, open_array, close_array, scalar, text, folded_keys, exact_keys,
  fold_name, unique_object_fields, no_duplicate_keys, accepts, walk,
}
use tui_box.Json.Tree.{Value, tokens, Fits}
use tui_box.Json.Accepted.{unique_object_fields_iff, no_duplicate_keys_iff}
use tui_box.Store.Snapshot.{holds}

-- {"a":[1],"b":"x"}
abbrev two_keys : List Token
two_keys =
    open_object
    ∷ text (bytes "a")
    ∷ open_array
    ∷ scalar
    ∷ close_array
    ∷ text (bytes "b")
    ∷ text (bytes "x")
    ∷ close_object
    ∷ []

-- {"a":1,"a":2}
abbrev one_key_twice : List Token
one_key_twice =
    open_object ∷ text (bytes "a") ∷ scalar ∷ text (bytes "a") ∷ scalar ∷ close_object ∷ []

unique_object_fields_iff_example :
    (unique_object_fields (λ c. c) folded_keys two_keys ≡ true)
    ↔ ((v : Value) × (two_keys ≡ tokens v []) × Fits 100 (fold_name (λ c. c)) (λ k. true) 0 v)
unique_object_fields_iff_example = unique_object_fields_iff (λ c. c) two_keys

no_duplicate_keys_iff_example :
    (no_duplicate_keys (λ s. s) two_keys ≡ true)
    ↔ ((v : Value) × (two_keys ≡ tokens v []) × Fits 32 (λ s. s) (λ k. same k k) 0 v)
no_duplicate_keys_iff_example = no_duplicate_keys_iff (λ s. s) two_keys

two_keys_accepted : unique_object_fields (λ c. c) exact_keys two_keys ≡ true
unfolding unique_object_fields accepts walk holds same
two_keys_accepted = refl

one_key_twice_rejected : no_duplicate_keys (λ s. s) one_key_twice ≡ false
unfolding no_duplicate_keys accepts walk holds same
one_key_twice_rejected = refl
