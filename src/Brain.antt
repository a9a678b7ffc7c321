-- ===== src/Brain.antt =====
-- The brains, `src/agent/brain`: how a provider is chosen, how its conversation is kept short, and
-- how its answers become actions.
pub mod Compact
pub mod ActionMap
pub mod Tools
pub mod Calls
pub mod Claude
pub mod Compatible
