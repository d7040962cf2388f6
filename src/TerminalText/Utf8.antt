-- ===== src/TerminalText/Utf8.antt =====
-- The part of Go's unicode/utf8 that the program uses. `decode` is DecodeRuneInString: `none`
-- stands for its answer (RuneError, 1), and the rest is what remains after the encoding.
use tui_box.Prelude.{
  ℕ, zero, suc, ◌+◌, ◌-◌, ◌*◌, ◌/◌, ◌%◌, Bool, true, false, ◌&&◌, ◌||◌, Option, none, some, List,
  [], ◌∷◌, ◌++◌, ltb, within, if◌then◌else◌, length, map, Bytes,
}

abbrev pub rune_error : ℕ
rune_error = 0xFFFD

-- utf8.ValidRune
unfoldable pub valid_rune : ℕ → Bool
valid_rune r = ltb r 0xD800 || within 0xE000 0x10FFFF r

-- The accepted range of the second byte after each lead byte of three or four bytes.
second_of_three : ℕ → ℕ → Bool
second_of_three lead b =
    within (if within 0xE0 0xE0 lead then 0xA0 else 0x80)
      (if within 0xED 0xED lead then 0x9F else 0xBF) b

second_of_four : ℕ → ℕ → Bool
second_of_four lead b =
    within (if within 0xF0 0xF0 lead then 0x90 else 0x80)
      (if within 0xF4 0xF4 lead then 0x8F else 0xBF) b

abbrev tail_byte : ℕ → Bool
tail_byte b = within 0x80 0xBF b

decode_two : ℕ → Bytes → Option (ℕ × Bytes)
decode_two a [] = none
decode_two a (b ∷ s) = if tail_byte b then some ((a - 0xC0) * 64 + (b - 0x80), s) else none

decode_three : ℕ → Bytes → Option (ℕ × Bytes)
unfolding second_of_three
decode_three a (b ∷ c ∷ s) =
    if second_of_three a b && tail_byte c
    then some ((a - 0xE0) * 4096 + (b - 0x80) * 64 + (c - 0x80), s)
    else none
decode_three a _ = none

decode_four : ℕ → Bytes → Option (ℕ × Bytes)
unfolding second_of_four
decode_four a (b ∷ c ∷ d ∷ s) =
    if second_of_four a b && (tail_byte c && tail_byte d)
    then some ((a - 0xF0) * 262144 + (b - 0x80) * 4096 + (c - 0x80) * 64 + (d - 0x80), s)
    else none
decode_four a _ = none

-- utf8.DecodeRuneInString of a nonempty string.
unfoldable pub decode : ℕ → Bytes → Option (ℕ × Bytes)
unfolding decode_two decode_three decode_four
decode a s =
    if ltb a 0x80
    then some (a, s)
    else if within 0xC2 0xDF a
    then decode_two a s
    else if within 0xE0 0xEF a
    then decode_three a s
    else if within 0xF0 0xF4 a
    then decode_four a s
    else none

-- The encoding of a rune, for a rune that has one.
unfoldable pub encode : ℕ → Bytes
encode r =
    if ltb r 0x80
    then r ∷ []
    else if ltb r 0x800
    then (0xC0 + r / 64) ∷ (0x80 + r % 64) ∷ []
    else if ltb r 0x10000
    then (0xE0 + r / 4096) ∷ (0x80 + r / 64 % 64) ∷ (0x80 + r % 64) ∷ []
    else (0xF0 + r / 262144) ∷ (0x80 + r / 4096 % 64) ∷ (0x80 + r / 64 % 64) ∷ (0x80 + r % 64) ∷ []

-- utf8.AppendRune and Builder.WriteRune: a rune with no encoding is written as U+FFFD.
unfoldable pub write_rune : ℕ → Bytes
unfolding encode valid_rune
write_rune r = if valid_rune r then encode r else encode rune_error

-- utf8.RuneLen of a valid rune.
unfoldable pub rune_len : ℕ → ℕ
rune_len r = if ltb r 0x80 then 1 else if ltb r 0x800 then 2 else if ltb r 0x10000 then 3 else 4

-- The runes of a string, a byte with no encoding as `none`; the length is enough fuel.
unfoldable pub scan : ℕ → Bytes → List (Option ℕ)
scan zero s = []
scan (suc f) [] = []
scan (suc f) (a ∷ s) = elim (decode a s) [
  | none ↦ none ∷ scan f s
  | some (r, rest) ↦ some r ∷ scan f rest
]

unfoldable pub runes : Bytes → List (Option ℕ)
unfolding scan decode
runes s = scan (length s) s

abbrev pub is_some : Option ℕ → Bool
is_some (some r) = true
is_some none = false

-- What `for _, r := range s` gives for one step.
abbrev pub or_error : Option ℕ → ℕ
or_error (some r) = r
or_error none = rune_error

abbrev pub all_some : List (Option ℕ) → Bool
all_some [] = true
all_some (o ∷ os) = is_some o && all_some os

-- utf8.ValidString
unfoldable pub valid_string : Bytes → Bool
unfolding runes
valid_string s = all_some (runes s)

-- The runes of a range loop.
unfoldable pub range_runes : Bytes → List ℕ
unfolding runes
range_runes s = map or_error (runes s)

unfoldable pub write_all : List ℕ → Bytes
unfolding write_rune
write_all [] = []
write_all (r ∷ rs) = write_rune r ++ write_all rs
