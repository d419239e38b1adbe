-- ===== src/Examples.antt =====
-- Concrete codecs, a concrete server and concrete jobs, and what the theorems say of them.
pub mod Data
pub mod Witnesses
pub mod Producers
pub mod Recoveries
pub mod Runs
pub mod Configs
pub mod Clients
pub mod Claims
pub mod Drains
pub mod Frames
pub mod Releases
pub mod Polls
pub mod Crons
pub mod Pools
pub mod Payloads
pub mod Sockets
