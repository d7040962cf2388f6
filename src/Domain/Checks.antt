-- ===== src/Domain/Checks.antt =====
-- internal/domain: errors as values, and the test that every text field passes
-- (validateString in endpoint.go).
use tui_box.Prelude.{
  ℕ, ◌≤◌, ◌≡◌, ◌≢◌, ◌↔◌, refl, Bool, true, false, not, ◌&&◌, Option, none, some, List, [], ◌∷◌,
  String, Bytes, ltb, length, arith, All,
}
use tui_box.TerminalText.{Tables, valid}
use tui_box.TerminalText.Utf8.{valid_string}

-- The errors that fmt.Errorf builds: a kind with the field's name, or a fixed message.
pub data Issue : Type 0 where
  required not_utf8 unsafe invalid not_applicable unsupported : String → Issue
  exceeds : String → ℕ → Issue
  message : String → Issue

-- A Go `error`, `none` for nil.
abbrev pub Check : Type 0
Check = Option Issue

-- `if err := a; err != nil { return err }; return b`
infixl 5 ◌>>◌
abbrev pub ◌>>◌ : Check → Check → Check
none >> b = b
some e >> b = some e

-- `if c { return e }`
abbrev pub fail_if : Bool → Issue → Check
fail_if true e = some e
fail_if false e = none

-- A loop that returns the first error.
abbrev pub check_each {ℓ} : {A : Type ℓ} → (A → Check) → List A → Check
check_each f [] = none
check_each f (x ∷ xs) = f x >> check_each f xs

abbrev pub is_empty : Bytes → Bool
is_empty [] = true
is_empty (a ∷ s) = false

-- `p != nil`, and a check of what `p` points to where it is not nil.
abbrev pub is_set {ℓ} : {A : Type ℓ} → Option A → Bool
is_set none = false
is_set (some a) = true

abbrev pub if_set {ℓ} : {A : Type ℓ} → (A → Check) → Option A → Check
if_set f none = none
if_set f (some a) = f a

-- What the validators use of the Go library beside text: the character tables, and whether
-- net.ParseIP reads an address.
pub record Library : Type 0 where
  pub tables : Tables
  pub parse_ip : Bytes → Bool

module _ (lib : Library) where
  -- validateString
  unfoldable pub validate_string : String → Bytes → ℕ → Bool → Check
  unfolding valid_string
  validate_string name value max_bytes is_required = do
    fail_if (is_required && is_empty value) (required name)
    fail_if (not (valid_string value)) (not_utf8 name)
    fail_if (ltb max_bytes (length value)) (exceeds name max_bytes)
    fail_if (not (valid lib.tables value)) (unsafe name)

  -- A text that validateString accepts.
  pub record IsField (max_bytes : ℕ) (is_required : Bool) (value : Bytes) : Type 0 where
    pub present : is_required ≡ true → value ≢ []
    pub fits : length value ≤ max_bytes
    pub safe : valid lib.tables value ≡ true

pub then-none : (a b : Check) → ((a >> b) ≡ none) ↔ (a ≡ none) × (b ≡ none)
then-none none b = (λ h. (refl, h), λ h. h.1)
then-none (some e) b = (λ h. cc, λ h. cc h.0)

pub fail_if-none : (c : Bool) (e : Issue) → (fail_if c e ≡ none) ↔ (c ≡ false)
fail_if-none true e = (λ h. cc, λ h. cc)
fail_if-none false e = (λ h. refl, λ h. refl)

pub check_each-none {ℓ} :
    {A : Type ℓ} (f : A → Check) (xs : List A) → (check_each f xs ≡ none) ↔ All (λ x. f x ≡ none) xs
check_each-none f [] = (λ h. tt, λ h. refl)
check_each-none f (x ∷ xs) = (
  λ h. let p = (then-none (f x) (check_each f xs)).0 h in (p.0, (check_each-none f xs).0 p.1),
  λ h. (then-none (f x) (check_each f xs)).1 (h.0, (check_each-none f xs).1 h.1),
)

module _ (lib : Library) where
  valid-valid_string : (s : Bytes) → valid lib.tables s ≡ true → valid_string s ≡ true
  unfolding valid
  valid-valid_string s h = ground arith

  -- validateString returns nil exactly for the texts that are safe for a terminal, within the
  -- limit, and not empty where the field is required.
  pub validate_string_iff :
      (name : String) (value : Bytes) (max_bytes : ℕ) (is_required : Bool)
      → (validate_string lib name value max_bytes is_required ≡ none)
        ↔ IsField lib max_bytes is_required value
  unfolding validate_string
  validate_string_iff name [] max_bytes is_required =
      (λ h. ground arith, λ f. ground (arith, valid-valid_string [] f.safe, f.present))
  validate_string_iff name (a ∷ s) max_bytes is_required =
      (λ h. ground arith, λ f. ground (arith, valid-valid_string (a ∷ s) f.safe, f.present))
