-- ===== src/Json/Tree.antt =====
-- internal/strictjson/validate.go and internal/rpc/protocol.go: JSON values as trees, and their tokens.
use tui_box.Prelude.{ℕ, suc, ◌≤◌, ◌<◌, ◌≡◌, Bool, true, List, [], ◌∷◌, Bytes, ◌+◌, arith, length}
use tui_box.Store.Accepted.{Distinct}
use tui_box.Json.Walk.{Token, open_object, close_object, open_array, close_array, scalar, text}

-- A value; a scalar is a number, true, false or null.
mutual
  pub data Value : Type 0 where
    scalar_value : Value
    text_value : Bytes → Value
    object : Members → Value
    array : Values → Value

  pub data Members : Type 0 where
    no_members : Members
    member : Bytes → Value → Members → Members

  pub data Values : Type 0 where
    no_values : Values
    item : Value → Values → Values

unfoldable mutual
  -- The tokens of a value, before other tokens.
  pub tokens : Value → List Token → List Token
  tokens scalar_value rest = scalar ∷ rest
  tokens (text_value s) rest = text s ∷ rest
  tokens (object ms) rest = open_object ∷ tokens_members ms rest
  tokens (array vs) rest = open_array ∷ tokens_values vs rest

  pub tokens_members : Members → List Token → List Token
  tokens_members no_members rest = close_object ∷ rest
  tokens_members (member key v ms) rest = text key ∷ tokens v (tokens_members ms rest)

  pub tokens_values : Values → List Token → List Token
  tokens_values no_values rest = close_array ∷ rest
  tokens_values (item v vs) rest = tokens v (tokens_values vs rest)

unfoldable mutual
  -- The turns that a walk takes.
  pub turns : Value → ℕ
  turns scalar_value = 1
  turns (text_value s) = 1
  turns (object ms) = suc (turns_members ms)
  turns (array vs) = suc (turns_values vs)

  pub turns_members : Members → ℕ
  turns_members no_members = 1
  turns_members (member key v ms) = suc (turns v + turns_members ms)

  pub turns_values : Values → ℕ
  turns_values no_values = 1
  turns_values (item v vs) = suc (turns v + turns_values vs)

mutual
  unfolding turns tokens

  -- Two turns for each token are enough.
  pub turns-tokens :
      (v : Value) (rest : List Token)
      → suc (turns v + (length rest + length rest))
        ≤ length (tokens v rest) + length (tokens v rest)
  turns-tokens scalar_value rest = omega arith
  turns-tokens (text_value s) rest = omega arith
  turns-tokens (object ms) rest = omega (arith, turns_members-tokens ms rest)
  turns-tokens (array vs) rest = omega (arith, turns_values-tokens vs rest)

  turns_members-tokens :
      (ms : Members) (rest : List Token)
      → turns_members ms + (length rest + length rest)
        ≤ length (tokens_members ms rest) + length (tokens_members ms rest)
  turns_members-tokens no_members rest = omega arith
  turns_members-tokens (member key v ms) rest =
      omega (arith, turns-tokens v (tokens_members ms rest), turns_members-tokens ms rest)

  turns_values-tokens :
      (vs : Values) (rest : List Token)
      → turns_values vs + (length rest + length rest)
        ≤ length (tokens_values vs rest) + length (tokens_values vs rest)
  turns_values-tokens no_values rest = omega arith
  turns_values-tokens (item v vs) rest =
      omega (arith, turns-tokens v (tokens_values vs rest), turns_values-tokens vs rest)

module _ (limit : ℕ) (identity : Bytes → Bytes) (allowed : Bytes → Bool) where
  unfoldable pub keys : Members → List Bytes
  keys no_members = []
  keys (member key v ms) = identity key ∷ keys ms

  unfoldable mutual
    -- A value at a depth: less than `limit` delimiters are open around each object and array, no
    -- object has two keys of one identity, and every key is allowed.
    pub Fits : ℕ → Value → Type 0
    Fits depth scalar_value = Unit
    Fits depth (text_value s) = Unit
    Fits depth (object ms) = (depth < limit) × Distinct (keys ms) × FitsMembers (suc depth) ms
    Fits depth (array vs) = (depth < limit) × FitsValues (suc depth) vs

    pub FitsMembers : ℕ → Members → Type 0
    FitsMembers depth no_members = Unit
    FitsMembers depth (member key v ms) = (allowed key ≡ true) × Fits depth v × FitsMembers depth ms

    pub FitsValues : ℕ → Values → Type 0
    FitsValues depth no_values = Unit
    FitsValues depth (item v vs) = Fits depth v × FitsValues depth vs
