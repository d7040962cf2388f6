-- ===== src/TerminalText.antt =====
-- internal/terminaltext/text.go: text that is safe to show on a terminal.
-- The Unicode category tables of the Go library are the parameter `Tables`; the categories
-- that the library fixes by ranges (Cc, Zl, Zp, white space) are written out.
pub mod Utf8
pub mod Utf8Laws
pub mod Cleaning
use tui_box.Prelude.{
  ℕ, ◌≡◌, Bool, true, false, not, ◌&&◌, ◌||◌, Option, none, some, List, map, ltb, within, all,
  if◌then◌else◌, Bytes, ◌==◌,
}
use Utf8.{valid_rune, runes, valid_string, range_runes, write_all, rune_error}

-- unicode.Is(unicode.Cf, r) and unicode.IsGraphic(r).
pub record Tables : Type 0 where
  pub format : ℕ → Bool
  pub graphic : ℕ → Bool

-- unicode.IsControl
unfoldable pub is_control : ℕ → Bool
is_control r = ltb r 0x20 || within 0x7F 0x9F r

-- unicode.IsSpace
unfoldable pub is_space : ℕ → Bool
is_space r =
    within 0x09 0x0D r
    || r == 0x20
    || r == 0x85
    || r == 0xA0
    || r == 0x1680
    || within 0x2000 0x200A r
    || within 0x2028 0x2029 r
    || r == 0x202F
    || r == 0x205F
    || r == 0x3000

abbrev pub replacement_rune : ℕ
replacement_rune = 0xFFFD

module _ (t : Tables) where
  -- IsSafeRune
  unfoldable pub is_safe_rune : ℕ → Bool
  unfolding valid_rune is_control
  is_safe_rune r =
      if not (valid_rune r) || is_control r || t.format r || r == 0x2028 || r == 0x2029
      then false
      else t.graphic r

  -- Valid
  unfoldable pub valid : Bytes → Bool
  unfolding valid_string range_runes is_safe_rune
  valid s = if not (valid_string s) then false else all is_safe_rune (range_runes s)

  -- What Sanitize writes for one decoded rune, or for one byte with no encoding.
  unfoldable pub clean : Option ℕ → ℕ
  unfolding is_safe_rune
  clean none = replacement_rune
  clean (some r) = if is_safe_rune r then r else replacement_rune

  -- Sanitize
  unfoldable pub sanitize : Bytes → Bytes
  unfolding valid clean runes write_all
  sanitize s = if valid s then s else write_all (map clean (runes s))

-- strings.TrimSpace(s) == ""
unfoldable pub is_blank : Bytes → Bool
unfolding is_space range_runes
is_blank s = all is_space (range_runes s)
