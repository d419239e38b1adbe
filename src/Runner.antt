-- ===== src/Runner.antt =====
-- The runner's side of a connection: rrq-rs/runner/src/registry.rs and rrq-rs/runner/src/runtime.rs;
-- its parts are the modules below.
pub mod Execute
pub mod Tables
