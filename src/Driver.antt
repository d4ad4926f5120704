-- ===== src/Driver.antt =====
-- driver.go: the driver's state and the calls that Nomad makes.
pub mod State
pub mod Start
pub mod Wait
pub mod Recover
pub mod Tasks
pub mod Plugin
pub mod Schema
pub mod Watch
pub mod Stats
pub mod Streaming
pub mod System
