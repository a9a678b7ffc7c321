-- ===== src/Daemon.antt =====
-- The long-running server, `src/agent/daemon`.
pub mod PubSub
pub mod Store
pub mod Learned
pub mod Rules
pub mod Executor
pub mod Server
