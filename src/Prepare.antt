-- ===== src/Prepare.antt =====
-- prepare.go: the command lines of a task's container.
pub mod Container
pub mod Commands
pub mod Shell
