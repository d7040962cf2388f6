-- ===== src/Domain/NamesLaws.antt =====
-- What the host and UUID validators accept, as conditions on the bytes.
use tui_box.Prelude.{
  ℕ, zero, suc, ◌+◌, ◌≡◌, ◌↔◌, ◌<◌, ◌≤◌, refl, ap, Bool, true, false, not, ◌&&◌, ◌||◌, none, some,
  [], ◌∷◌, Bytes, ltb, ◌==◌, length, get_elem?, all, arith, if◌then◌else◌, inl, inr, Option-cases,
  Bool-cases, ◌⊎◌,
}
use tui_box.TerminalText.Utf8.{decode, runes, range_runes}
use tui_box.TerminalText.Utf8Laws.{runes-cons_some, runes-cons_none}
use tui_box.Domain.Names.{
  is_hex, is_label_rune, valid_host_label, validate_uuid, uuid_runes, dash_index, first_is, last_is,
  byte_is,
}

decode_ascii : (a : ℕ) (s : Bytes) → a < 128 → decode a s ≡ some (a, s)
unfolding decode
decode_ascii a s h = ground arith

-- A lead byte above ASCII decodes to no ASCII rune.
decode_wide :
    (a : ℕ) (s : Bytes) {r : ℕ} {rest : Bytes} → 128 ≤ a → decode a s ≡ some (r, rest) → 128 ≤ r
unfolding decode
decode_wide a [] h e = ground arith
decode_wide a (b ∷ []) h e = ground arith
decode_wide a (b ∷ c ∷ []) h e = ground arith
decode_wide a (b ∷ c ∷ d ∷ s) h e = ground arith

pub runes_ascii : (a : ℕ) (s : Bytes) → a < 128 → runes (a ∷ s) ≡ some a ∷ runes s
runes_ascii a s h = runes-cons_some a s (decode_ascii a s h)

-- A test that holds of ASCII runes only.
abbrev AsciiOnly : (ℕ → Bool) → Type 0
AsciiOnly p = (r : ℕ) → 128 ≤ r → p r ≡ false

-- A range loop with such a test tests the bytes.
pub all-range_runes : (p : ℕ → Bool) → AsciiOnly p → (s : Bytes) → all p (range_runes s) ≡ all p s
unfolding range_runes
all-range_runes p ascii [] = unfold runes in refl
all-range_runes p ascii (a ∷ s) = elim (Bool-cases (ltb a 128)) [
  | inl low ↦ rw (runes_ascii a s (ground arith)) (ap (λ b. p a && b) (all-range_runes p ascii s))
  | inr high ↦ elim (Option-cases (decode a s)) [
    | inl bad ↦ rw (runes-cons_none a s bad, ascii a (ground arith), ascii 0xFFFD (omega arith))
    | inr ((r, rest), good) ↦ rw (
      runes-cons_some a s good,
      ascii a (ground arith),
      ascii r (decode_wide a s (ground arith) good),
    )
  ]
]

is_label_rune-ascii : AsciiOnly is_label_rune
unfolding is_label_rune
is_label_rune-ascii r h = ground arith

pub is_hex-ascii : AsciiOnly is_hex
unfolding is_hex
is_hex-ascii r h = ground arith

-- A host label that validHostLabel accepts.
pub record IsHostLabel (label : Bytes) : Type 0 where
  pub nonempty : 1 ≤ length label
  pub short : length label ≤ 63
  pub first : first_is b'-' label ≡ false
  pub last : last_is b'-' label ≡ false
  pub ldh : all is_label_rune label ≡ true

-- validHostLabel accepts exactly the labels of 1 to 63 bytes that hold only ASCII letters, digits
-- and dashes, and neither begin nor end with a dash.
pub valid_host_label_iff : (label : Bytes) → (valid_host_label label ≡ true) ↔ IsHostLabel label
unfolding valid_host_label
valid_host_label_iff label = (
  λ h. ground (arith, all-range_runes is_label_rune is_label_rune-ascii label),
  λ h. ground (arith, all-range_runes is_label_rune is_label_rune-ascii label),
)

-- From a byte index on: a dash at the four places, a hexadecimal digit at the others.
abbrev pub uuid_bytes : ℕ → Bytes → Bool
uuid_bytes i [] = true
uuid_bytes i (a ∷ s) = (if dash_index i then a == b'-' else is_hex a) && uuid_bytes (i + 1) s

-- The four tests on single bytes, as one walk.
abbrev dashes_at : ℕ → Bytes → Bool
dashes_at i [] = true
dashes_at i (a ∷ s) = (not (dash_index i) || a == b'-') && dashes_at (i + 1) s

uuid_runes-bytes :
    (i : ℕ) (s : Bytes) → dashes_at i s ≡ true → uuid_runes i (runes s) ≡ uuid_bytes i s
unfolding uuid_runes
uuid_runes-bytes i [] h = unfold runes in refl
uuid_runes-bytes i (a ∷ s) h = elim (Bool-cases (ltb a 128)) [
  | inl low ↦ rw (runes_ascii a s (ground arith)) (ground (arith, uuid_runes-bytes (i + 1) s))
  | inr high ↦ elim (Option-cases (decode a s)) [
    | inl bad ↦ rw (runes-cons_none a s bad) (ground arith)
    | inr ((r, rest), good) ↦
        rw (runes-cons_some a s good)
          (ground (arith, decode_wide a s {r = r} {rest = rest} (ground arith) good))
  ]
]

dash_index_move : (j k : ℕ) → j ≡ k → dash_index j ≡ true → dash_index k ≡ true
dash_index_move j k e d = rw (← e) d

dashes_at-intro :
    (i : ℕ) (s : Bytes)
    → ((j : ℕ) → j < length s → dash_index (i + j) ≡ true → byte_is b'-' (get_elem? s j) ≡ true)
    → dashes_at i s ≡ true
dashes_at-intro i [] h = refl
dashes_at-intro i (a ∷ s) h =
    let rest : dashes_at (i + 1) s ≡ true = dashes_at-intro (i + 1) s (λ j lt d.
      h (suc j) (omega arith) (dash_index_move (i + 1 + j) (i + suc j) (omega arith) d)) in
    let here : dash_index (i + 0) ≡ true → (a == b'-') ≡ true = h 0 (omega arith) in
    elim (Bool-cases (dash_index i)) [
      | inl d ↦ ground (arith, rest, here (dash_index_move i (i + 0) (omega arith) d))
      | inr n ↦ ground (arith, rest)
    ]

uuid_bytes-dashes : (i : ℕ) (s : Bytes) → uuid_bytes i s ≡ true → dashes_at i s ≡ true
uuid_bytes-dashes i [] h = refl
uuid_bytes-dashes i (a ∷ s) h = ground (arith, uuid_bytes-dashes (i + 1) s)

byte_at :
    (i j : ℕ) (s : Bytes)
    → dashes_at i s ≡ true
    → j < length s
    → dash_index (i + j) ≡ true
    → byte_is b'-' (get_elem? s j) ≡ true
byte_at i j [] h lt d = absurd (omega arith)
byte_at i zero (a ∷ s) h lt d =
    let at_i : dash_index i ≡ true = dash_index_move (i + 0) i (omega arith) d in ground arith
byte_at i (suc j) (a ∷ s) h lt d =
    byte_at (i + 1) j s (ground arith) (omega arith)
      (dash_index_move (i + suc j) (i + 1 + j) (omega arith) d)

dash_index-cases : (j : ℕ) → dash_index j ≡ true → (j ≡ 8) ⊎ (j ≡ 13) ⊎ (j ≡ 18) ⊎ (j ≡ 23)
dash_index-cases j h = ground arith

-- A UUID in the usual notation, of either case.
pub record IsUuid (value : Bytes) : Type 0 where
  pub size : length value ≡ 36
  pub shape : uuid_bytes 0 value ≡ true

dashes_of_tests :
    (value : Bytes)
    → byte_is b'-' (get_elem? value 8) ≡ true
    → byte_is b'-' (get_elem? value 13) ≡ true
    → byte_is b'-' (get_elem? value 18) ≡ true
    → byte_is b'-' (get_elem? value 23) ≡ true
    → dashes_at 0 value ≡ true
dashes_of_tests value a b c d = dashes_at-intro 0 value λ j lt at.
    elim (dash_index-cases j (dash_index_move (0 + j) j (omega arith) at)) [
      | inl p ↦ rw p a
      | inr (inl p) ↦ rw p b
      | inr (inr (inl p)) ↦ rw p c
      | inr (inr (inr p)) ↦ rw p d
    ]

-- validateUUID accepts exactly the strings of 36 bytes with a dash at index 8, 13, 18 and 23 and
-- an ASCII hexadecimal digit at every other index.
pub validate_uuid_iff : (value : Bytes) → (validate_uuid value ≡ none) ↔ IsUuid value
unfolding validate_uuid
validate_uuid_iff value = (
  λ h. record {
    size = ground arith;
    shape = ground (arith, uuid_runes-bytes 0 value, dashes_of_tests value);
  },
  λ u.
      let dashes : dashes_at 0 value ≡ true = uuid_bytes-dashes 0 value u.shape in
      ground (
        arith,
        uuid_runes-bytes 0 value,
        byte_at 0 8 value,
        byte_at 0 13 value,
        byte_at 0 18 value,
        byte_at 0 23 value,
      ),
)
