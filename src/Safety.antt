-- ===== src/Safety.antt =====
-- The safety layer, `src/agent/safety`: rate limiter, command patterns, window allowlist, confirmation.
pub mod RateLimit
pub mod Pattern
pub mod Sanitize
pub mod Glob
pub mod Allowlist
pub mod Confirm
