-- ===== src/Pot.antt =====
-- pot.go: the commands that a `syexec` runs.
pub mod Run
pub mod Create
pub mod Query
pub mod Kept
