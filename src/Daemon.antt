-- ===== src/Daemon.antt =====
-- internal/daemon/service.go: the service that owns the core process.
pub mod State
pub mod Stop
pub mod StopLaws
pub mod Install
pub mod Connect
pub mod Operations
pub mod Steps
pub mod StartSteps
pub mod ConnectSteps
pub mod ConnectResult
pub mod Ownership
pub mod Trace
pub mod ShutSteps
pub mod Shut
