-- ===== src/Tests/Texts.antt =====
-- Texts and latencies at concrete inputs.
use tui_box.Prelude.{
  ℕ, ◌≡◌, ◌↔◌, refl, Bool, true, false, none, some, List, [], ◌∷◌, map, Bytes, bytes, leb, ◌==◌,
}
use tui_box.Prelude.Int.{pos}
use tui_box.TerminalText.{Tables, valid, clean, sanitize}
use tui_box.TerminalText.Utf8.{runes}
use tui_box.TerminalText.Cleaning.{
  ShowsReplacement, sanitize-valid, sanitize_unchanged_iff, runes-sanitize,
}
use tui_box.Domain.Types.{vless, trojan}
use tui_box.Domain.Names.{validate_uuid, uuid_runes, valid_host_label}
use tui_box.Domain.NamesLaws.{IsUuid, IsHostLabel, validate_uuid_iff, valid_host_label_iff}
use tui_box.Latency.Result.{Result, success, unavailable, no_cause, dial_failed}
use tui_box.Latency.Best.{best, IsBest, best-IsBest}
use tui_box.Latency.Order.{better, bytes_lt}

-- Tables in which every character but the controls is printable.
abbrev simple_tables : Tables
simple_tables = record { format = λ r. r == 0x200B; graphic = λ r. leb 0x20 r }

shows_replacement : ShowsReplacement simple_tables
shows_replacement = record { not_format = refl; is_graphic = refl }

-- "a", a byte with no encoding, ESC, and U+200B.
abbrev hostile : Bytes
hostile = 0x61 ∷ 0xFF ∷ 0x1B ∷ 0xE2 ∷ 0x80 ∷ 0x8B ∷ []

hostile_cleaned :
    sanitize simple_tables hostile
    ≡ 0x61 ∷ 0xEF ∷ 0xBF ∷ 0xBD ∷ 0xEF ∷ 0xBF ∷ 0xBD ∷ 0xEF ∷ 0xBF ∷ 0xBD ∷ []
unfolding sanitize
hostile_cleaned = refl

hostile_invalid : valid simple_tables hostile ≡ false
unfolding valid
hostile_invalid = refl

sanitize-valid_example : valid simple_tables (sanitize simple_tables hostile) ≡ true
sanitize-valid_example = sanitize-valid simple_tables shows_replacement hostile

sanitize_unchanged_iff_example :
    (sanitize simple_tables hostile ≡ hostile) ↔ (valid simple_tables hostile ≡ true)
sanitize_unchanged_iff_example = sanitize_unchanged_iff simple_tables shows_replacement hostile

runes-sanitize_example :
    runes (sanitize simple_tables hostile) ≡ map some (map (clean simple_tables) (runes hostile))
runes-sanitize_example = runes-sanitize simple_tables shows_replacement hostile hostile_invalid

abbrev some_uuid : Bytes
some_uuid = bytes "01234567-89ab-CDEF-0123-456789abcdef"

some_uuid_accepted : validate_uuid some_uuid ≡ none
unfolding validate_uuid uuid_runes runes
some_uuid_accepted = refl

validate_uuid_iff_example : (validate_uuid some_uuid ≡ none) ↔ IsUuid some_uuid
validate_uuid_iff_example = validate_uuid_iff some_uuid

valid_host_label_iff_example :
    (valid_host_label (bytes "xn--a") ≡ true) ↔ IsHostLabel (bytes "xn--a")
valid_host_label_iff_example = valid_host_label_iff (bytes "xn--a")

abbrev result_of : Bytes → ℕ → Bool → Result
result_of id d true = record {
  endpoint_id = id;
  protocol = vless;
  duration = pos d;
  status = success;
  error = no_cause;
}
result_of id d false = record {
  endpoint_id = id;
  protocol = trojan;
  duration = pos d;
  status = unavailable;
  error = dial_failed;
}

abbrev probes : List Result
probes =
    result_of (bytes "c") 7 true
    ∷ result_of (bytes "d") 1 false
    ∷ result_of (bytes "b") 5 true
    ∷ result_of (bytes "a") 5 true
    ∷ []

best_of_probes : best probes ≡ some (result_of (bytes "a") 5 true)
unfolding best better bytes_lt
best_of_probes = refl

best-IsBest_example : IsBest (best probes) probes
best-IsBest_example = best-IsBest probes
