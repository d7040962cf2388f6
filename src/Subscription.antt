-- ===== src/Subscription.antt =====
-- internal/subscription: the endpoints of a subscription document.
pub mod Library
pub mod Identity
pub mod Parser
