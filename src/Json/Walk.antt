-- ===== src/Json/Walk.antt =====
-- internal/strictjson/validate.go, and rejectDuplicateKeys of internal/rpc/protocol.go: one walk over
-- the tokens of a text, with a limit of the depth and a test of the keys.
use tui_box.Prelude.{
  ℕ, suc, zero, Bool, true, false, not, ◌||◌, Option, none, some, List, [], ◌∷◌, ◌++◌, Bytes, same,
  leb, ltb, within, ◌+◌, ◌-◌, length, if◌then◌else◌,
}
use tui_box.Store.Snapshot.{holds}
use tui_box.TerminalText.Utf8.{write_rune, runes}

-- What Decoder.Token returns: a delimiter, a string, another value, or an error of the syntax. The
-- end of the list is io.EOF.
pub data Token : Type 0 where
  open_object close_object open_array close_array scalar broken : Token
  text : Bytes → Token

-- Where the walk is: before a value, in an object whose keys so far are known, or in an array.
pub data Place : Type 0 where
  value elements : Place
  members : List Bytes → Place

abbrev pub and_then : Option (List Token) → (List Token → Option (List Token)) → Option (List Token)
and_then none f = none
and_then (some ts) f = f ts

abbrev pub at_end : Option (List Token) → Bool
at_end (some []) = true
at_end _ = false

-- `identity` is the form in which keys are compared, `allowed` the test of a key alone.
module _ (limit : ℕ) (identity : Bytes → Bytes) (allowed : Bytes → Bool) where
  -- validateValue, consumeJSONValue: the tokens that are left, or `none` for an error.
  unfoldable pub walk : ℕ → Place → ℕ → List Token → Option (List Token)
  walk zero p depth ts = none
  walk (suc fuel) value depth (scalar ∷ ts) = some ts
  walk (suc fuel) value depth (text s ∷ ts) = some ts
  walk (suc fuel) value depth (open_object ∷ ts) =
      let rest = walk fuel (members []) (suc depth) ts in if leb limit depth then none else rest
  walk (suc fuel) value depth (open_array ∷ ts) =
      let rest = walk fuel elements (suc depth) ts in if leb limit depth then none else rest
  walk (suc fuel) value depth _ = none
  walk (suc fuel) (members seen) depth (close_object ∷ ts) = some ts
  walk (suc fuel) (members seen) depth (text key ∷ ts) =
      let rest =
        and_then (walk fuel value depth ts)
          (λ us. walk fuel (members (identity key ∷ seen)) depth us) in
      if holds seen (identity key) || not (allowed key) then none else rest
  walk (suc fuel) (members seen) depth _ = none
  walk (suc fuel) elements depth [] = none
  walk (suc fuel) elements depth (close_array ∷ ts) = some ts
  walk (suc fuel) elements depth (close_object ∷ ts) = none
  walk (suc fuel) elements depth (t ∷ ts) =
      and_then (walk fuel value depth (t ∷ ts)) (λ us. walk fuel elements depth us)

  -- A whole text: one value and then io.EOF. The fuel is two for each token and one more.
  unfoldable pub accepts : List Token → Bool
  unfolding walk
  accepts ts = at_end (walk (suc (length ts + length ts)) value 0 ts)

-- KeyComparison; `other` is any other number.
pub data KeyComparison : Type 0 where
  exact_keys folded_keys other : KeyComparison

-- `simple_fold` is unicode.SimpleFold, the next larger rune of the same letter or the smallest.
module _ (simple_fold : ℕ → ℕ) where
  -- foldRune; the rune grows with each turn, so there are fewer turns than runes.
  unfoldable pub fold_rune_from : ℕ → ℕ → ℕ
  fold_rune_from zero c = c
  fold_rune_from (suc fuel) c =
      let folded = simple_fold c in
      let later = fold_rune_from fuel folded in if leb folded c then folded else later

  unfoldable pub fold_rune : ℕ → ℕ
  unfolding fold_rune_from
  fold_rune c = fold_rune_from 0x110000 c

  -- A turn of the loop of foldName; `none` is a byte that is no character.
  abbrev pub fold_piece : Option ℕ → Bytes
  fold_piece none = write_rune (fold_rune 0xFFFD)
  fold_piece (some c) =
      if ltb c 0x80
      then (if within b'a' b'z' c then c - 32 else c) ∷ []
      else write_rune (fold_rune c)

  unfoldable pub fold_pieces : List (Option ℕ) → Bytes
  unfolding fold_rune
  fold_pieces [] = []
  fold_pieces (o ∷ os) = fold_piece o ++ fold_pieces os

  -- foldName
  unfoldable pub fold_name : Bytes → Bytes
  unfolding fold_pieces
  fold_name s = fold_pieces (runes s)

  -- ValidateUniqueObjectFields returns nil.
  unfoldable pub unique_object_fields : KeyComparison → List Token → Bool
  unfolding accepts fold_name
  unique_object_fields exact_keys ts = accepts 100 (λ k. k) (λ k. true) ts
  unique_object_fields folded_keys ts = accepts 100 fold_name (λ k. true) ts
  unique_object_fields other ts = false

-- rejectDuplicateKeys of internal/rpc/protocol.go returns nil; `to_lower` is strings.ToLower.
unfoldable pub no_duplicate_keys : (Bytes → Bytes) → List Token → Bool
unfolding accepts
no_duplicate_keys to_lower ts = accepts 32 to_lower (λ k. same k (to_lower k)) ts
