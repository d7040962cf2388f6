-- ===== src/App/Runes.antt =====
-- The runes of identifiers: internal/app/service.go and internal/rpc/protocol.go.
use tui_box.Prelude.{ℕ, Bool, ◌||◌, within, ◌==◌}

unfoldable pub is_identifier_rune : ℕ → Bool
is_identifier_rune c =
    within b'a' b'z' c
    || within b'A' b'Z' c
    || within b'0' b'9' c
    || c == b'-'
    || c == b'_'
    || c == b'.'
