-- ===== src/Domain/Names.antt =====
-- internal/domain/endpoint.go: host names and UUIDs.
use tui_box.Prelude.{
  ℕ, ◌+◌, Bool, true, false, not, ◌&&◌, ◌||◌, Option, none, some, List, [], ◌∷◌, String, Bytes, ltb,
  within, ◌==◌, length, get_elem?, all, if◌then◌else◌,
}
use tui_box.TerminalText.Utf8.{runes, range_runes, or_error, rune_len}
use tui_box.Domain.Checks.{Check, Library, ◌>>◌, fail_if, validate_string, invalid}

-- isHex
unfoldable pub is_hex : ℕ → Bool
is_hex c = within b'0' b'9' c || within b'a' b'f' c || within b'A' b'F' c

-- The characters of a host label.
unfoldable pub is_label_rune : ℕ → Bool
is_label_rune c = within b'a' b'z' c || within b'A' b'Z' c || within b'0' b'9' c || c == b'-'

abbrev pub first_is : ℕ → Bytes → Bool
first_is c [] = false
first_is c (a ∷ s) = a == c

abbrev pub last_is : ℕ → Bytes → Bool
last_is c [] = false
last_is c (a ∷ []) = a == c
last_is c (a ∷ b ∷ s) = last_is c (b ∷ s)

-- validHostLabel
unfoldable pub valid_host_label : Bytes → Bool
unfolding is_label_rune range_runes
valid_host_label label =
    if length label == 0 || ltb 63 (length label) || first_is b'-' label || last_is b'-' label
    then false
    else all is_label_rune (range_runes label)

abbrev pub add_front : ℕ → List Bytes → List Bytes
add_front c [] = (c ∷ []) ∷ []
add_front c (w ∷ ws) = (c ∷ w) ∷ ws

-- strings.Split by one byte.
unfoldable pub split : ℕ → Bytes → List Bytes
split c [] = [] ∷ []
split c (a ∷ s) = let rest = split c s in if a == c then [] ∷ rest else add_front a rest

-- strings.TrimSuffix by one byte, which HasSuffix guards in the source.
unfoldable pub trim_last : ℕ → Bytes → Bytes
trim_last c [] = []
trim_last c (a ∷ []) = if a == c then [] else a ∷ []
trim_last c (a ∷ b ∷ s) = a ∷ trim_last c (b ∷ s)

abbrev pub max_host_length : ℕ
max_host_length = 253

-- validateHost
unfoldable pub validate_host : Library → String → Bytes → Check
unfolding valid_host_label split trim_last
validate_host lib name value = do
  validate_string lib name value max_host_length true
  fail_if
      (if lib.parse_ip value
        then false
        else not (all valid_host_label (split b'.' (trim_last b'.' value))))
      (invalid name)

abbrev pub byte_is : ℕ → Option ℕ → Bool
byte_is c none = false
byte_is c (some a) = a == c

abbrev pub dash_index : ℕ → Bool
dash_index i = i == 8 || i == 13 || i == 18 || i == 23

-- The width of one step of a range loop.
abbrev pub step_width : Option ℕ → ℕ
step_width none = 1
step_width (some r) = rune_len r

-- The range loop of validateUUID, from a byte index on.
unfoldable pub uuid_runes : ℕ → List (Option ℕ) → Bool
unfolding is_hex rune_len
uuid_runes i [] = true
uuid_runes i (o ∷ os) = (dash_index i || is_hex (or_error o)) && uuid_runes (i + step_width o) os

-- validateUUID
unfoldable pub validate_uuid : Bytes → Check
validate_uuid value = do
  fail_if
      (not (length value == 36)
        || not (byte_is b'-' (get_elem? value 8))
        || not (byte_is b'-' (get_elem? value 13))
        || not (byte_is b'-' (get_elem? value 18))
        || not (byte_is b'-' (get_elem? value 23)))
      (invalid "UUID")
  fail_if (not (uuid_runes 0 (runes value))) (invalid "UUID")
