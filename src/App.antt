-- ===== src/App.antt =====
-- internal/app/service.go: the application service.
pub mod Runes
pub mod Errors
pub mod Identity
pub mod World
pub mod Edits
pub mod Refresh
pub mod Add
pub mod Remove
pub mod AddCompensates
pub mod RemoveCompensates
pub mod RefreshEnds
pub mod RefreshCommits
pub mod Tokens
pub mod Prepared
pub mod Entries
pub mod Edited
pub mod Grown
pub mod Turns
pub mod Collected
pub mod Batches
pub mod Telemetry
pub mod Latencies
pub mod Servers
pub mod Chosen
