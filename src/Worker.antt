-- ===== src/Worker.antt =====
-- The worker of rrq-rs/orchestrator/src/worker.rs; its parts are the modules below.
pub mod Routing
pub mod Outcome
pub mod Execute
pub mod Release
pub mod Cleaned
pub mod Drain
pub mod Recover
pub mod Poll
pub mod Cron
