-- ===== src/Config.antt =====
-- The configuration, `src/agent/config.py`, and the choice of a provider by it, of
-- `src/agent/brain/router.py`.
pub mod Yaml
pub mod Providers
pub mod Sections
pub mod Load
pub mod Known
pub mod Bounds
pub mod Router
pub mod Credentials
pub mod Chosen
mod Tests
