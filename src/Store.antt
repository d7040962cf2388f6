-- ===== src/Store.antt =====
-- internal/state/store.go: the application's state file.
pub mod Snapshot
pub mod File
pub mod Commits
pub mod Updates
pub mod Runs
pub mod History
pub mod Accepted
