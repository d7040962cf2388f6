-- ===== src/Json.antt =====
-- The strict checks of JSON texts: internal/strictjson and internal/rpc/protocol.go.
pub mod Walk
pub mod Tree
pub mod Accepted
