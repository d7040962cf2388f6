-- ===== src/Latency.antt =====
-- internal/latency/checker.go: TCP reachability of endpoints.
pub mod Result
pub mod Probe
pub mod Order
pub mod Best
pub mod Pool
pub mod Sound
pub mod SoundSteps
pub mod Checked
pub mod Budget
pub mod Lively
pub mod Progress
pub mod Reached
