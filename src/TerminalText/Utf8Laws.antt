-- ===== src/TerminalText/Utf8Laws.antt =====
-- Go's unicode/utf8: encoding before decoding.
use tui_box.Prelude.{
  ℕ, zero, suc, ◌≤◌, ◌<◌, ◌≡◌, refl, ap, inl, inr, true, Option, Option-cases, all, ◌∙◌, none, some,
  List, [], ◌∷◌, ◌++◌, arith, ltb, Bool-cases, length, map, Bytes,
}
use tui_box.TerminalText.Utf8.{valid_rune, decode, encode, write_all, scan, runes}

-- The first byte of a nonempty string and the rest.
abbrev decode_string : Bytes → Option (ℕ × Bytes)
decode_string [] = none
decode_string (a ∷ s) = decode a s

decode-encode_one : (r : ℕ) (s : Bytes) → r < 128 → decode_string (encode r ++ s) ≡ some (r, s)
unfolding decode encode
decode-encode_one r s h = ground arith

decode-encode_two :
    (r : ℕ) (s : Bytes) → 128 ≤ r → r < 2048 → decode_string (encode r ++ s) ≡ some (r, s)
unfolding decode encode
decode-encode_two r s h k = ground arith

decode-encode_three :
    (r : ℕ) (s : Bytes)
    → 2048 ≤ r
    → r < 65536
    → valid_rune r ≡ true
    → decode_string (encode r ++ s) ≡ some (r, s)
unfolding decode encode valid_rune
decode-encode_three r s h k v = ground arith

decode-encode_four :
    (r : ℕ) (s : Bytes)
    → 65536 ≤ r
    → valid_rune r ≡ true
    → decode_string (encode r ++ s) ≡ some (r, s)
unfolding decode encode valid_rune
decode-encode_four r s h v = ground arith

pub decode-encode :
    (r : ℕ) (s : Bytes) → valid_rune r ≡ true → decode_string (encode r ++ s) ≡ some (r, s)
decode-encode r s v = elim (Bool-cases (ltb r 128)) [
  | inl one ↦ decode-encode_one r s (ground arith)
  | inr more ↦ elim (Bool-cases (ltb r 2048)) [
    | inl two ↦ decode-encode_two r s (ground arith) (ground arith)
    | inr large ↦ elim (Bool-cases (ltb r 65536)) [
      | inl three ↦ decode-encode_three r s (ground arith) (ground arith) v
      | inr four ↦ decode-encode_four r s (ground arith) v
    ]
  ]
]

-- `decode` consumes the first byte and never adds any.
pub length-decode :
    (a : ℕ) (s : Bytes) {r : ℕ} {rest : Bytes}
    → decode a s ≡ some (r, rest)
    → length rest ≤ length s
unfolding decode
length-decode a [] h = ground arith
length-decode a (b ∷ []) h = ground arith
length-decode a (b ∷ c ∷ []) h = ground arith
length-decode a (b ∷ c ∷ d ∷ s) h = ground arith

-- More fuel than the length changes nothing.
pub scan_fuel : (f g : ℕ) (s : Bytes) → length s ≤ f → length s ≤ g → scan f s ≡ scan g s
unfolding scan
scan_fuel zero zero s h k = refl
scan_fuel zero (suc g) [] h k = refl
scan_fuel zero (suc g) (a ∷ s) h k = absurd (omega arith)
scan_fuel (suc f) zero [] h k = refl
scan_fuel (suc f) zero (a ∷ s) h k = absurd (omega arith)
scan_fuel (suc f) (suc g) [] h k = refl
scan_fuel (suc f) (suc g) (a ∷ s) h k = elim (Option-cases (decode a s)) [
  | inl bad ↦ rw (bad, scan) (ap (λ t. none ∷ t) (scan_fuel f g s (omega arith) (omega arith)))
  | inr ((r, rest), good) ↦
      rw (good, scan)
        (ap (λ t. some r ∷ t)
          (scan_fuel f g rest (omega (arith, length-decode a s good))
            (omega (arith, length-decode a s good))))
]

pub runes-cons_some :
    (a : ℕ) (s : Bytes) {r : ℕ} {rest : Bytes}
    → decode a s ≡ some (r, rest)
    → runes (a ∷ s) ≡ some r ∷ runes rest
unfolding runes
runes-cons_some a s {r} {rest} h =
    rw (h, scan)
      (ap (λ t. some r ∷ t)
        (scan_fuel (length s) (length rest) rest (length-decode a s h) (omega arith)))

pub runes-cons_none : (a : ℕ) (s : Bytes) → decode a s ≡ none → runes (a ∷ s) ≡ none ∷ runes s
unfolding runes
runes-cons_none a s h = rw (h, scan)

runes_of_decode :
    (s : Bytes) {r : ℕ} {rest : Bytes}
    → decode_string s ≡ some (r, rest)
    → runes s ≡ some r ∷ runes rest
runes_of_decode [] h = cc
runes_of_decode (a ∷ s) h = runes-cons_some a s h

-- Written runes are read back.
pub runes-write_all : (rs : List ℕ) → all valid_rune rs ≡ true → runes (write_all rs) ≡ map some rs
unfolding write_all
runes-write_all [] h = unfold runes in refl
runes-write_all (r ∷ rs) h =
    let v : valid_rune r ≡ true = ground arith in
    rw v (
      runes_of_decode (encode r ++ write_all rs) (decode-encode r (write_all rs) v)
      ∙ ap (λ t. some r ∷ t) (runes-write_all rs (ground arith)))
