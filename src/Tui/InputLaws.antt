-- ===== src/Tui/InputLaws.antt =====
-- internal/tui/update.go: the runes and the length of typed text.
use tui_box.Prelude.{
  ℕ, ◌+◌, ◌≤◌, ◌≡◌, refl, sym, ap, Bool, true, List, [], ◌∷◌, ◌++◌, append_assoc, Bytes, length,
  length-append, all, all-append, arith,
}
use tui_box.TerminalText.{Tables, is_safe_rune}
use tui_box.TerminalText.Utf8.{write_rune, write_all, range_runes, rune_len, valid_rune}
use tui_box.TerminalText.Utf8Laws.{runes-write_all}
use tui_box.TerminalText.Cleaning.{safe-valid_rune, all_safe-valid_rune, or_error-map}
use tui_box.Tui.Input.{
  runes_within, append_runes_within_bytes, secret_within, append_secret_runes, drop_last,
  remove_last_rune, max_secret_input_bytes,
}

length-write_rune : (r : ℕ) → valid_rune r ≡ true → length (write_rune r) ≡ rune_len r
unfolding write_rune rune_len
length-write_rune r v = ground arith

write_all-append : (rs us : List ℕ) → write_all (rs ++ us) ≡ write_all rs ++ write_all us
unfolding write_all
write_all-append [] us = refl
write_all-append (r ∷ rs) us =
    rw (write_all-append rs us) (sym (append_assoc (write_rune r) (write_all rs) (write_all us)))

drop_last-all : (p : ℕ → Bool) (rs : List ℕ) → all p rs ≡ true → all p (drop_last rs) ≡ true
drop_last-all p [] h = refl
drop_last-all p (r ∷ []) h = refl
drop_last-all p (r ∷ u ∷ rs) h = ground (arith, drop_last-all p (u ∷ rs))

length-write_all-drop_last :
    (rs : List ℕ) → length (write_all (drop_last rs)) ≤ length (write_all rs)
unfolding write_all
length-write_all-drop_last [] = omega arith
length-write_all-drop_last (r ∷ []) = omega arith
length-write_all-drop_last (r ∷ u ∷ rs) = omega (
  arith,
  length-append (write_rune r) (write_all (drop_last (u ∷ rs))),
  length-append (write_rune r) (write_rune u ++ write_all rs),
  length-write_all-drop_last (u ∷ rs),
)

module _ (t : Tables) where
  -- The runes of a typed text, and their bytes.
  pub record IsTyped (maximum : ℕ) (rs : List ℕ) : Type 0 where
    pub safe : all (is_safe_rune t) rs ≡ true
    pub fits : length (write_all rs) ≤ maximum

  secret_within-safe :
      (maximum used : ℕ) (rs : List ℕ)
      → all (is_safe_rune t) (secret_within t maximum used rs) ≡ true
  unfolding secret_within
  secret_within-safe maximum used [] = refl
  secret_within-safe maximum used (r ∷ rs) =
      ground (
        arith,
        secret_within-safe maximum used rs,
        secret_within-safe maximum (used + rune_len r) rs,
      )

  secret_within-fits :
      (maximum used : ℕ) (rs : List ℕ)
      → used ≤ maximum
      → used + length (write_all (secret_within t maximum used rs)) ≤ maximum
  unfolding secret_within write_all
  secret_within-fits maximum used [] h = omega arith
  secret_within-fits maximum used (r ∷ rs) h = ground (
    arith,
    secret_within-fits maximum used rs,
    secret_within-fits maximum (used + rune_len r) rs,
    length-write_rune r,
    safe-valid_rune t r,
    length-append (write_rune r) (write_all (secret_within t maximum (used + rune_len r) rs)),
  )

  runes_within-eq :
      (maximum used : ℕ) (rs : List ℕ)
      → runes_within t maximum used rs ≡ write_all (secret_within t maximum used rs)
  unfolding secret_within runes_within write_all
  runes_within-eq maximum used [] = refl
  runes_within-eq maximum used (r ∷ rs) =
      ground
        (arith, runes_within-eq maximum used rs, runes_within-eq maximum (used + rune_len r) rs)

  IsTyped-append :
      (maximum : ℕ) (current rs : List ℕ)
      → IsTyped maximum current
      → IsTyped maximum (current ++ secret_within t maximum (length (write_all current)) rs)
  IsTyped-append maximum current rs h =
      let used = length (write_all current) in
      let more = secret_within t maximum used rs in
      record {
        safe = ground (
          arith,
          all-append (is_safe_rune t) current more,
          secret_within-safe maximum used rs,
          h.safe,
        );
        fits = omega (
          arith,
          ap length (write_all-append current more),
          length-append (write_all current) (write_all more),
          secret_within-fits maximum used rs h.fits,
        );
      }

  pub append_secret_runes-IsTyped :
      (current rs : List ℕ)
      → IsTyped max_secret_input_bytes current
      → IsTyped max_secret_input_bytes (append_secret_runes t current rs)
  unfolding append_secret_runes
  append_secret_runes-IsTyped current rs h = IsTyped-append max_secret_input_bytes current rs h

  -- The name is the bytes of typed runes.
  abbrev pub IsTypedText : ℕ → Bytes → Type 0
  IsTypedText maximum s = (rs : List ℕ) × (s ≡ write_all rs) × IsTyped maximum rs

  pub append_runes-IsTypedText :
      (maximum : ℕ) (s : Bytes) (us : List ℕ)
      → IsTypedText maximum s
      → IsTypedText maximum (append_runes_within_bytes t s us maximum)
  unfolding append_runes_within_bytes
  append_runes-IsTypedText maximum s us (rs, e, h) = (
    rs ++ secret_within t maximum (length (write_all rs)) us,
    rw (e, runes_within-eq maximum (length (write_all rs)) us)
        (sym (write_all-append rs (secret_within t maximum (length (write_all rs)) us))),
    IsTyped-append maximum rs us h,
  )

  read_back : (rs : List ℕ) → all (is_safe_rune t) rs ≡ true → range_runes (write_all rs) ≡ rs
  unfolding range_runes
  read_back rs h = rw (runes-write_all rs (all_safe-valid_rune t rs h)) (or_error-map rs)

  pub remove_last_rune-IsTypedText :
      (maximum : ℕ) (s : Bytes) → IsTypedText maximum s → IsTypedText maximum (remove_last_rune s)
  unfolding remove_last_rune
  remove_last_rune-IsTypedText maximum s (rs, e, h) = (
    drop_last rs,
    rw (e, read_back rs h.safe),
    record {
      safe = drop_last-all (is_safe_rune t) rs h.safe;
      fits = omega (arith, length-write_all-drop_last rs, h.fits);
    },
  )

  pub drop_last-IsTyped :
      (maximum : ℕ) (rs : List ℕ) → IsTyped maximum rs → IsTyped maximum (drop_last rs)
  drop_last-IsTyped maximum rs h = record {
    safe = drop_last-all (is_safe_rune t) rs h.safe;
    fits = omega (arith, length-write_all-drop_last rs, h.fits);
  }
