-- ===== src/Tui.antt =====
-- internal/tui: the model of the terminal interface and its update function.
pub mod Model
pub mod Input
pub mod InputLaws
pub mod Servers
pub mod Update
pub mod Invariant
pub mod Commands
pub mod Typing
pub mod Sound
pub mod Actions
