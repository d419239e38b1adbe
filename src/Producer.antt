-- ===== src/Producer.antt =====
-- The producer, rrq-rs/producer/src/lib.rs; its parts are the modules below.
pub mod Scripts
pub mod Enqueue
pub mod Wait
pub mod Correlation
