-- ===== src/Tui/Input.antt =====
-- internal/tui/update.go: editing of the name and of the masked URL.
use tui_box.Prelude.{ℕ, ◌+◌, not, List, [], ◌∷◌, ◌++◌, Bytes, ltb, length, if◌then◌else◌}
use tui_box.TerminalText.{Tables, is_safe_rune}
use tui_box.TerminalText.Utf8.{write_rune, write_all, range_runes, rune_len}

abbrev pub max_secret_input_bytes : ℕ
max_secret_input_bytes = 4096

module _ (t : Tables) where
  -- The loop of appendRunesWithinBytes: what is written after `used` bytes.
  unfoldable pub runes_within : ℕ → ℕ → List ℕ → Bytes
  runes_within maximum used [] = []
  runes_within maximum used (r ∷ rs) =
      let skipped = runes_within maximum used rs in
      let written = write_rune r ++ runes_within maximum (used + rune_len r) rs in
      if not (is_safe_rune t r)
      then skipped
      else if ltb maximum (used + rune_len r)
      then []
      else written

  -- appendRunesWithinBytes
  unfoldable pub append_runes_within_bytes : Bytes → List ℕ → ℕ → Bytes
  append_runes_within_bytes current rs maximum = current ++ runes_within maximum (length current) rs

  -- The loop of appendSecretRunes.
  unfoldable pub secret_within : ℕ → ℕ → List ℕ → List ℕ
  secret_within maximum used [] = []
  secret_within maximum used (r ∷ rs) =
      let skipped = secret_within maximum used rs in
      let written = r ∷ secret_within maximum (used + rune_len r) rs in
      if not (is_safe_rune t r)
      then skipped
      else if ltb maximum (used + rune_len r)
      then []
      else written

  -- appendSecretRunes
  unfoldable pub append_secret_runes : List ℕ → List ℕ → List ℕ
  append_secret_runes current rs =
      current ++ secret_within max_secret_input_bytes (length (write_all current)) rs

abbrev pub drop_last {ℓ} : {A : Type ℓ} → List A → List A
drop_last [] = []
drop_last (x ∷ []) = []
drop_last (x ∷ y ∷ xs) = x ∷ drop_last (y ∷ xs)

-- removeLastRune
unfoldable pub remove_last_rune : Bytes → Bytes
remove_last_rune value = write_all (drop_last (range_runes value))
