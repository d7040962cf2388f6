-- ===== src/TerminalText/Cleaning.antt =====
-- internal/terminaltext/text.go: the texts that Sanitize returns.
use tui_box.Prelude.{
  ℕ, ◌≡◌, refl, ap, inl, inr, true, false, Option, none, some, List, [], ◌∷◌, arith, Bool-cases,
  map, Bytes, all, ◌↔◌, subst,
}
use tui_box.TerminalText.{Tables, is_safe_rune, valid, clean, sanitize, replacement_rune}
use tui_box.TerminalText.Utf8.{
  valid_rune, write_all, runes, valid_string, range_runes, all_some, or_error,
}
use tui_box.TerminalText.Utf8Laws.{runes-write_all}

-- What is relied on of the tables: U+FFFD is a printable symbol.
pub record ShowsReplacement (t : Tables) : Type 0 where
  pub not_format : t.format replacement_rune ≡ false
  pub is_graphic : t.graphic replacement_rune ≡ true

module _ (t : Tables) (shows : ShowsReplacement t) where
  clean_safe : (o : Option ℕ) → is_safe_rune t (clean t o) ≡ true
  unfolding clean
  clean_safe none = unfold is_safe_rune in ground (arith, shows.not_format, shows.is_graphic)
  clean_safe (some r) = elim (Bool-cases (is_safe_rune t r)) [
    | inl safe ↦ rw safe safe
    | inr bad ↦ rw bad (unfold is_safe_rune in ground (arith, shows.not_format, shows.is_graphic))
  ]

  clean-all_safe : (os : List (Option ℕ)) → all (is_safe_rune t) (map (clean t) os) ≡ true
  clean-all_safe [] = refl
  clean-all_safe (o ∷ os) = rw (clean_safe o) (clean-all_safe os)

pub safe-valid_rune : (t : Tables) (r : ℕ) → is_safe_rune t r ≡ true → valid_rune r ≡ true
unfolding is_safe_rune
safe-valid_rune t r h = ground arith

pub all_safe-valid_rune :
    (t : Tables) (rs : List ℕ) → all (is_safe_rune t) rs ≡ true → all valid_rune rs ≡ true
all_safe-valid_rune t [] h = refl
all_safe-valid_rune t (r ∷ rs) h = ground (arith, safe-valid_rune t r, all_safe-valid_rune t rs)

all_some-map : (rs : List ℕ) → all_some (map some rs) ≡ true
all_some-map [] = refl
all_some-map (r ∷ rs) = all_some-map rs

pub or_error-map : (rs : List ℕ) → map or_error (map some rs) ≡ rs
or_error-map [] = refl
or_error-map (r ∷ rs) = ap (λ u. r ∷ u) (or_error-map rs)

-- A string of safe runes is a valid one.
pub write_all-valid :
    (t : Tables) (rs : List ℕ) → all (is_safe_rune t) rs ≡ true → valid t (write_all rs) ≡ true
unfolding valid valid_string range_runes
write_all-valid t rs h =
    rw (runes-write_all rs (all_safe-valid_rune t rs h), all_some-map rs, or_error-map rs) h

-- For every byte string Sanitize gives text that Valid accepts, if the tables count U+FFFD as
-- printable.
pub sanitize-valid : (t : Tables) → ShowsReplacement t → (s : Bytes) → valid t (sanitize t s) ≡ true
unfolding sanitize
sanitize-valid t shows s = elim (Bool-cases (valid t s)) [
  | inl good ↦ rw good good
  | inr bad ↦
      rw bad (write_all-valid t (map (clean t) (runes s)) (clean-all_safe t shows (runes s)))
]

-- Sanitize returns its input exactly when Valid accepts the input, if the tables count U+FFFD as
-- printable.
pub sanitize_unchanged_iff :
    (t : Tables) → ShowsReplacement t → (s : Bytes) → (sanitize t s ≡ s) ↔ (valid t s ≡ true)
sanitize_unchanged_iff t shows s = (
  λ same_text. subst (λ u. valid t u ≡ true) same_text (sanitize-valid t shows s),
  λ good. unfold sanitize in rw good,
)

-- The runes of Sanitize's output for a text that Valid rejects are those of the input, each unsafe
-- one and each undecodable byte replaced by U+FFFD, if the tables count U+FFFD as printable.
pub runes-sanitize :
    (t : Tables)
    → ShowsReplacement t
    → (s : Bytes) → valid t s ≡ false
    → runes (sanitize t s) ≡ map some (map (clean t) (runes s))
unfolding sanitize
runes-sanitize t shows s bad = rw bad (
    runes-write_all (map (clean t) (runes s))
      (all_safe-valid_rune t (map (clean t) (runes s)) (clean-all_safe t shows (runes s))))
