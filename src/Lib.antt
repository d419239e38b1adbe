-- ===== src/Lib.antt =====
-- RRQ is a job queue on Redis. This library models its Rust core: how a job is enqueued, claimed,
-- run, retried, waited for, moved to the dead letter queue (DLQ), queued again and cleaned up.
--
-- The parts, with the files that model them:
-- - Keys: the names of the Redis keys (rrq-rs/orchestrator/src/constants.rs,
--   rrq-rs/config/src/queue.rs, rrq-rs/config/src/defaults.rs). A key is a constructor for its
--   prefix with the text behind it.
-- - Redis: what the program relies on of the server, an interface with the documented effect of
--   each command. Redis/Calls: one process's calls, each of which may be served, lose its request,
--   lose its reply or be refused for its type; which of them fail is a list that every theorem
--   quantifies over, and calls behind the end of the list are served. Redis/Triples: pre- and
--   postconditions of such actions. Redis/Log: an instance of the interface.
-- - Job: jobs and their hashes (rrq-rs/orchestrator/src/job.rs and `build_job_mapping`,
--   `parse_job_map` of rrq-rs/orchestrator/src/store.rs).
-- - Scripts: the Lua scripts of rrq-rs/orchestrator/src/lua, each a function of the server's data
--   with KEYS and ARGV as arguments. Scripts/Claim: the claiming scripts. Scripts/NoLoss: each
--   script on the invariant.
-- - Producer: rrq-rs/producer/src/lib.rs. Producer/Scripts has the three scripts that it builds,
--   Producer/Enqueue the enqueue operations and `get_job_status`, Producer/Wait the loop of
--   `wait_for_completion`, Producer/Correlation the correlation context of a new job.
-- - Client: `RRQClient::enqueue` of rrq-rs/orchestrator/src/client.rs.
-- - Store: `JobStore` of rrq-rs/orchestrator/src/store.rs, one action per method.
-- - Protocol: the messages of rrq-rs/protocol/src/lib.rs. Protocol/Frame: their frames.
-- - Runner: the other side of that protocol. Runner/Execute has the registry of handlers and their
--   deadlines (rrq-rs/runner/src/registry.rs, rrq-rs/runner/src/runtime.rs), Runner/Tables the
--   tables of the requests in flight (`handle_connection`, `handle_cancel`).
-- - Platform: the server, the codecs and the conversions of times together, and the settings of
--   rrq-rs/config/src/settings.rs.
-- - Worker: rrq-rs/orchestrator/src/worker.rs. Worker/Routing has its pure helpers, Worker/Outcome
--   what happens at the end of a job, Worker/Execute `execute_job`, Worker/Release how claimed jobs
--   are given back, Worker/Drain what a shutdown does with running jobs, Worker/Recover
--   `recover_orphaned_jobs`, Worker/Cleaned the data after a clean-up, Worker/Poll `poll_for_jobs`,
--   which claims jobs and starts them or gives them back, Worker/Cron a round of `cron_loop` with
--   the schedules of rrq-rs/config/src/cron.rs.
-- - RunnerPool: the processes of a runner and their sockets and permits
--   (rrq-rs/orchestrator/src/runner.rs). RunnerPool/Timeouts has the requests in flight and the
--   clean-ups after a timeout, RunnerPool/Connection the requests that wait on a connection,
--   RunnerPool/Start the checks of a new pool and the start of its processes, RunnerPool/Build
--   `build_runners_from_settings_filtered`.
-- - Config: the checks of `validate_runner_configs` (rrq-rs/config/src/config.rs) and the choice of
--   runners, pools and limits in rrq-rs/orchestrator/src/runner.rs. Config/Load has the payload
--   that is deserialized, from the file and the environment, and Config/Merge `deep_merge`.
--   Config/TcpSocket reads the endpoints of runners (rrq-rs/config/src/tcp_socket.rs and
--   `parse_tcp_socket` of rrq-rs/runner/src/runtime.rs).
-- - Tracking: where the system can find a job, and the invariant `NoLoss`. System: the
--   scripts, removals of settled jobs and expiries as steps of the server, in any order.
-- - Float: the operations of f64 that occur, as an interface. Prelude: shared names. Examples:
--   concrete data and the theorems at them.
--
-- How the code corresponds: an action takes the world (the server's data, the faults to come, the
-- worker's tables of running jobs and abort handles) to a result and the next world; `?` is the
-- monad's bind and a dropped or matched result is `attempt`. The current time, the fresh request id
-- and the runner's answer are arguments. A script runs in one step, as in Redis, so an interleaving
-- of processes is a sequence of scripts. Loops are structural recursion, except two. That over the
-- pages of SCAN is stopped after any number of them. That of `wait_for_completion` has its number of
-- turns as fuel: one more than the first turn at which the clock has reached the deadline is enough;
-- what a turn finds is a function of its number. The integers of the scripts are Lua's doubles,
-- which are taken to be exact; i64 sums are checked where the code checks them, and
-- `current_retries + 1` is taken not to overflow. An error inside a script is HINCRBY's on a field
-- that is no integer; a key of a wrong type refuses the whole call, so that requeue_job.lua, which
-- catches such an error after its first writes and answers -1, does not do so here.
--
-- Not modelled: spans, metrics and log lines; the connections, TLS and timeouts of the Redis client;
-- the system calls for the runners' processes and sockets; the reading and parsing of files; the
-- worker's heartbeat loop, which in each round writes its health key and calls the recovery
-- (Worker/Recover); the command line; and the bindings for other languages.
pub mod Prelude
pub mod Float
pub mod Keys
pub mod Redis
pub mod Job
pub mod Platform
pub mod Scripts
pub mod Tracking
pub mod Store
pub mod Protocol
pub mod Producer
pub mod Runner
pub mod RunnerPool
pub mod Worker
pub mod Config
pub mod Client
pub mod System
pub mod Examples
