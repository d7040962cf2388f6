-- ===== src/Prelude/Results.antt =====
-- A Go pair of a value and an error, of which one counts.
use mathlib.Core.Path.{◌≡◌, refl, ap}
use mathlib.Core.Logic.{◌⊎◌, inl, inr}
use mathlib.Core.Bool.{Bool, true, false}
use native.Mathlib.Omega.{arith}

pub data Result {ℓ κ} (E : Type ℓ) (A : Type κ) : Type (ℓ ⊔ κ) where
  ok : A → Result E A
  err : E → Result E A

module _ {ℓ} {E : Type ℓ} where
  -- `if err != nil { return err }`
  infixl 5 ◌>>=◌
  abbrev pub ◌>>=◌ {κ ι} : {A : Type κ} {B : Type ι} → Result E A → (A → Result E B) → Result E B
  ok a >>= f = f a
  err e >>= f = err e

  infixl 5 ◌>>◌
  abbrev pub ◌>>◌ {κ} : {B : Type κ} → Result E (Unit {0}) → Result E B → Result E B
  r >> k = r >>= λ _. k

  -- `if c { return e }`
  abbrev pub reject_if : Bool → E → Result E (Unit {0})
  reject_if true e = err e
  reject_if false e = ok tt

  pub bind_ok {κ ι} :
      {A : Type κ} {B : Type ι} (r : Result E A) (k : A → Result E B) {b : B}
      → (r >>= k) ≡ ok b
      → (a : A) × (r ≡ ok a) × (k a ≡ ok b)
  bind_ok (ok a) k h = (a, refl, h)
  bind_ok (err e) k h = ground arith

  -- A test that was passed.
  pub reject_if_ok {κ} :
      {B : Type κ} (c : Bool) (e : E) (k : Result E B) {b : B}
      → (reject_if c e >> k) ≡ ok b
      → (c ≡ false) × (k ≡ ok b)
  reject_if_ok true e k h = ground arith
  reject_if_ok false e k h = (refl, h)

  value_or {κ} : {A : Type κ} → A → Result E A → A
  value_or a (ok b) = b
  value_or a (err e) = a

  pub ok-injective {κ} : {A : Type κ} {a b : A} → Path (Result E A) (ok a) (ok b) → a ≡ b
  unfolding value_or
  ok-injective {a = a} h = ap (value_or a) h

pub Result-cases {ℓ κ} :
    {E : Type ℓ} {A : Type κ} (r : Result E A) → ((e : E) × (r ≡ err e)) ⊎ ((a : A) × (r ≡ ok a))
Result-cases (err e) = inl (e, refl)
Result-cases (ok a) = inr (a, refl)
