-- ===== src/Exec.antt =====
-- exec_utils.go and pty_unix.go: a command in a container with its streams.
pub mod Result
pub mod Stream
pub mod Session
