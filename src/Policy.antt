-- ===== src/Policy.antt =====
-- internal/policy: the access checks of the gateway: scopes and addresses of policy.go, and the
-- rate limiter of ratelimit.go.
pub mod Scope
pub mod RateLimit
pub mod Addresses
pub mod Windows
pub mod Rules
mod Tests
