-- ===== src/Daemon/Ownership.antt =====
-- internal/daemon/service.go: the prepared configurations that are opened, closed and held.
pub mod Balance
pub mod Connecting
pub mod Owned
