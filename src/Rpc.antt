-- ===== src/Rpc.antt =====
-- The daemon's protocol: internal/rpc/protocol.go.
pub mod Codes
pub mod Messages
pub mod Answers
