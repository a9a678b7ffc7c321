-- ===== src/Orchestrator.antt =====
-- The agent loop, `src/agent/orchestrator.py`.
pub mod Processes
pub mod Tree
pub mod Exec
pub mod Actions
pub mod Perform
pub mod Keys
pub mod KeysKept
pub mod Permitted
pub mod Handlers
pub mod Run
pub mod Course
pub mod Guarded
mod Tests
