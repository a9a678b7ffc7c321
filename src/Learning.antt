-- ===== src/Learning.antt =====
-- What is done with what the agent learns: `src/agent/learning`.
pub mod Api
pub mod Decided
pub mod Miner
mod Tests
