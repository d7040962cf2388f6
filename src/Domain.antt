-- ===== src/Domain.antt =====
-- internal/domain: the endpoint of a subscription and the rules that make it valid.
pub mod Checks
pub mod Types
pub mod Names
pub mod NamesLaws
pub mod Tls
pub mod Options
pub mod Endpoint
pub mod Profile
pub mod OptionsLaws
pub mod Accepted
pub mod Subscription
