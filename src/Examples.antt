-- ===== src/Examples.antt =====
-- Concrete tasks, hosts and streams, with the theorems at them.
mod Data
mod Prepared
mod Streams
mod Tasks
mod System
mod Containers
mod Running
mod Shell
