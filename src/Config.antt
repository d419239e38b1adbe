-- ===== src/Config.antt =====
-- The settings of the runners: `validate_runner_configs` of rrq-rs/config/src/config.rs, and
-- `determine_needed_runners`, `resolve_runner_pool_sizes` and `resolve_runner_max_in_flight` of
-- rrq-rs/orchestrator/src/runner.rs.
pub mod Pools
pub mod Needed
pub mod Merge
pub mod Load
pub mod TcpSocket
use rrq.Prelude.{
  ℕ, zero, suc, ◌+◌, ◌-◌, String, Bool, true, false, Option, none, some, List, [], ◌∷◌, ◌&&◌, ◌||◌,
  ◌==◌, not, leb, ltb, nat_eq, if◌then◌else◌, is_some, unwrap_or, or_else,
}
use rrq.Prelude.Int.{ℤ, pos, leb_ℤ, ltb_ℤ, checked_add, checked_mul}
use rrq.Keys.{normalize_queue_name, queue_key_prefix}
use rrq.Job.{Fields, field, and_then}
use rrq.Platform.{RrqSettings}
use rrq.Prelude.Texts.{strip_prefix}

-- The fields that the checks read.
pub record RunnerConfig : Type 0 where
  pub cmd : Option (List String)
  pub pool_size : Option ℕ
  pub max_in_flight : Option ℕ
  pub tcp_port : Option ℕ

pub data Verdict : Type 0 where
  valid : Verdict
  invalid : String → Verdict

-- The first part of `validate_runner_configs`.
unfoldable pub validate_timeouts : {F64 : Type 0} → RrqSettings F64 → Verdict
validate_timeouts s =
    if leb_ℤ s.default_job_timeout_seconds (pos 0)
    then invalid "default_job_timeout_seconds must be positive"
    else if ltb_ℤ s.default_lock_timeout_extension_seconds (pos 0)
    then invalid "default_lock_timeout_extension_seconds must be >= 0"
    else if is_some (
        and_then
          (checked_add s.default_job_timeout_seconds s.default_lock_timeout_extension_seconds)
          (λ sum. checked_mul sum (pos 1000)))
    then valid
    else invalid "provisional claim lock timeout overflow"

abbrev pub is_zero : Option ℕ → Bool
is_zero none = false
is_zero (some n) = nat_eq n 0

-- The port range of a runner's processes.
abbrev pub validate_ports : ℕ → ℕ → Verdict
validate_ports port pool_size =
    if leb 4294967296 (pool_size - 1)
    then invalid "pool_size is too large"
    else if ltb 65535 (port + (pool_size - 1))
    then invalid "tcp_port range insufficient"
    else valid

-- The checks of the port. Whether the endpoint of an external runner is allowed is the check of
-- rrq-rs/config/src/tcp_socket.rs.
abbrev pub validate_port : Bool → Bool → ℕ → Option ℕ → ℕ → Verdict
validate_port external endpoint_allowed default_pool_size pool_size port =
    if nat_eq port 0
    then invalid "invalid tcp_port: 0"
    else if external && not endpoint_allowed
    then invalid "invalid endpoint"
    else validate_ports port (if external then 1 else unwrap_or pool_size default_pool_size)

abbrev pub validate_some_port : Bool → Bool → ℕ → RunnerConfig → Option ℕ → Verdict
validate_some_port external endpoint_allowed default_pool_size c none =
    invalid "missing required field 'tcp_port'"
validate_some_port external endpoint_allowed default_pool_size c (some port) =
    if not external && not (is_some c.cmd)
    then invalid "missing required field 'cmd'"
    else validate_port external endpoint_allowed default_pool_size c.pool_size port

-- The body of the loop of `validate_runner_configs` over the runners.
unfoldable pub validate_runner : Bool → Bool → ℕ → RunnerConfig → Verdict
validate_runner external endpoint_allowed default_pool_size c =
    if is_zero c.pool_size
    then invalid "invalid pool_size: 0"
    else if is_zero c.max_in_flight
    then invalid "invalid max_in_flight: 0"
    else validate_some_port external endpoint_allowed default_pool_size c c.tcp_port

-- The loops' bodies of `resolve_runner_pool_sizes` and `resolve_runner_max_in_flight`; `none` is the
-- error.
unfoldable pub resolve_pool_size : Bool → Bool → ℕ → RunnerConfig → Option ℕ
resolve_pool_size watch_mode external default_pool_size c =
    let configured = if watch_mode then 1 else unwrap_or c.pool_size default_pool_size in
    let pool_size = if external && not (nat_eq configured 1) then 1 else configured in
    if nat_eq pool_size 0 then none else some pool_size

abbrev pub max_in_flight_per_connection_limit : ℕ
max_in_flight_per_connection_limit = 64

unfoldable pub validate_max_in_flight_limit : ℕ → Option ℕ
validate_max_in_flight_limit limit =
    if nat_eq limit 0
    then none
    else if ltb max_in_flight_per_connection_limit limit
    then none
    else some limit

unfoldable pub resolve_max_in_flight : Bool → RunnerConfig → Option ℕ
resolve_max_in_flight watch_mode c =
    validate_max_in_flight_limit (if watch_mode then 1 else unwrap_or c.max_in_flight 1)

-- The runner that a normalized queue is routed to.
abbrev pub routed : Fields → String → Option String
routed runner_routes queue =
    or_else (field runner_routes queue)
      (and_then (strip_prefix queue queue_key_prefix) (field runner_routes))

abbrev pub add_runner : Option String → List String → List String
add_runner none needed = needed
add_runner (some name) needed = name ∷ needed

-- The loop of `determine_needed_runners`: the routed runners, and whether a queue has none.
unfoldable pub routed_runners : Fields → List String → List String × Bool
routed_runners runner_routes [] = ([], false)
routed_runners runner_routes (queue ∷ queues) =
    let (needed, needs_default) = routed_runners runner_routes queues in
    (
      add_runner (routed runner_routes queue) needed,
      not (is_some (routed runner_routes queue)) || needs_default,
    )

abbrev pub normalize_all : List String → List String
normalize_all [] = []
normalize_all (q ∷ qs) = normalize_queue_name q ∷ normalize_all qs

abbrev pub effective_queues : String → List String → List String
effective_queues default_queue_name [] = normalize_queue_name default_queue_name ∷ []
effective_queues default_queue_name (q ∷ qs) = normalize_all (q ∷ qs)

-- A set is the list of its members. No queues on the command line is the empty list.
unfoldable pub determine_needed_runners :
    {F64 : Type 0} → RrqSettings F64 → List String → List String
determine_needed_runners s queues =
    let (needed, needs_default) =
      routed_runners s.runner_routes (effective_queues s.default_queue_name queues) in
    if needs_default && not (s.default_runner_name == "")
    then s.default_runner_name ∷ needed
    else needed
