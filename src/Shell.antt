-- ===== src/Shell.antt =====
-- The shell of myshell/.
pub mod Jobs
pub mod Control
pub mod Parser
pub mod Execute
pub mod Interpreter
