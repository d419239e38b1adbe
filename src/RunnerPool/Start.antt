-- ===== src/RunnerPool/Start.antt =====
-- `SocketRunnerPool::new`, `ensure_started` and `close` of rrq-rs/orchestrator/src/runner.rs: a pool
-- is checked, its processes are started, and on an error all of them are stopped again.
pub mod Ordered
pub mod Checked
use rrq.Prelude.{
  ℕ, zero, suc, ◌+◌, ◌-◌, ◌%◌, String, Bool, true, false, Option, none, some, List, [], ◌∷◌, ltb,
  nat_eq, if◌then◌else◌, unwrap_or,
}
use rrq.Config.{validate_max_in_flight_limit}
use rrq.Config.TcpSocket.{
  Network, SocketError, Parsed, endpoint, refused, parse_tcp_socket_with_allowed_hosts,
}
use rrq.RunnerPool.{SocketProcess, SocketRunnerPool, Trial, next_tcp_socket, spawn_process}

-- Whether all have been started, the processes so far, and the pool.
abbrev pub Start : Type 0
Start = Bool × List SocketProcess × SocketRunnerPool

-- A process is pushed.
abbrev pub pushed : SocketProcess → Start → Start
pushed proc (ok, rest, pool) = (ok, proc ∷ rest, pool)

abbrev pub external_process : ℕ → ℕ → SocketProcess
external_process max_in_flight socket = record {
  child = none;
  socket = socket;
  permits = max_in_flight;
  connection = none;
}

abbrev pub push_external : Option ℕ × SocketRunnerPool → (SocketRunnerPool → Start) → Start
push_external (none, pool) rest = (false, [], pool)
push_external (some socket, pool) rest =
    pushed (external_process pool.max_in_flight socket) (rest pool)

-- The loop over so many processes that others manage.
abbrev pub start_external : ℕ → SocketRunnerPool → Start
start_external zero pool = (true, [], pool)
start_external (suc n) pool = push_external (next_tcp_socket pool) (start_external n)

abbrev pub push_spawned :
    Option SocketProcess × SocketRunnerPool → (SocketRunnerPool → Start) → Start
push_spawned (none, pool) rest = (false, [], pool)
push_spawned (some proc, pool) rest = pushed proc (rest pool)

-- The loop over so many processes to spawn.
abbrev pub start_managed : (ℕ → ℕ → Trial) → ℕ → SocketRunnerPool → Start
start_managed trials zero pool = (true, [], pool)
start_managed trials (suc n) pool =
    push_spawned (spawn_process (trials n) none pool) (start_managed trials n)

abbrev pub with_processes : Start → Bool × SocketRunnerPool
with_processes (ok, processes, pool) = (ok, record pool { processes = processes })

-- The processes started before the error are terminated and forgotten.
abbrev pub or_cleared : Start → Start
or_cleared (true, processes, pool) = (true, processes, pool)
or_cleared (false, processes, pool) = (false, [], pool)

abbrev pub start_all : (ℕ → ℕ → Trial) → SocketRunnerPool → Start
start_all trials pool =
    if pool.external
    then start_external pool.pool_size pool
    else or_cleared (start_managed trials pool.pool_size pool)

abbrev pub start_if_empty :
    (ℕ → ℕ → Trial) → SocketRunnerPool → List SocketProcess → Bool × SocketRunnerPool
start_if_empty trials pool [] = with_processes (start_all trials pool)
start_if_empty trials pool (x ∷ xs) = (true, pool)

unfoldable pub ensure_started : (ℕ → ℕ → Trial) → SocketRunnerPool → Bool × SocketRunnerPool
ensure_started trials pool = start_if_empty trials pool pool.processes

-- Every process is terminated and forgotten.
abbrev pub close_pool : SocketRunnerPool → SocketRunnerPool
close_pool pool = record pool { processes = [] }

pub data StartError : Type 0 where
  zero_pool_size bad_max_in_flight no_tcp_socket range_too_small not_started : StartError
  bad_socket : SocketError → StartError

-- A pool with the host of its sockets, or the error with what is left of the pool.
pub data NewPool (IpAddr : Type 0) : Type 0 where
  started : IpAddr → SocketRunnerPool → NewPool IpAddr
  rejected : StartError → NewPool IpAddr
  closed : SocketRunnerPool → NewPool IpAddr

abbrev pub is_external_mode : List String → Bool
is_external_mode [] = true
is_external_mode (c ∷ cmd) = false

abbrev pub new_of : Bool → ℕ → ℕ → ℕ → SocketRunnerPool
new_of external pool_size max_in_flight port = record {
  external = external;
  pool_size = pool_size;
  max_in_flight = max_in_flight;
  port = port;
  tcp_port_cursor = 0;
  processes = [];
  cursor = 0;
}

-- `port as u32 + (pool_size as u32).saturating_sub(1)`, which wraps in a release build.
abbrev pub max_port : ℕ → ℕ → ℕ
max_port port pool_size = (port + (pool_size % 4294967296 - 1)) % 4294967296

module _ {IpAddr : Type 0} where
  abbrev pub or_closed : IpAddr → Bool × SocketRunnerPool → NewPool IpAddr
  or_closed ip (true, pool) = started ip pool
  or_closed ip (false, pool) = closed (close_pool pool)

  abbrev pub start_at : (ℕ → ℕ → Trial) → Bool → ℕ → ℕ → Parsed IpAddr → NewPool IpAddr
  start_at trials external pool_size max_in_flight (refused e) = rejected (bad_socket e)
  start_at trials external pool_size max_in_flight (endpoint ip port) =
      if ltb 65535 (max_port port pool_size)
      then rejected range_too_small
      else or_closed ip (ensure_started trials (new_of external pool_size max_in_flight port))

module _ (net : Network) where
  open net use {IpAddr}

  abbrev pub start_on :
      (ℕ → ℕ → Trial) → Bool → ℕ → Option ℕ → Option String → List String → NewPool IpAddr
  start_on trials external pool_size none tcp_socket allowed_hosts = rejected bad_max_in_flight
  start_on trials external pool_size (some max_in_flight) none allowed_hosts =
      rejected no_tcp_socket
  start_on trials external pool_size (some max_in_flight) (some raw) allowed_hosts =
      start_at trials external pool_size max_in_flight
        (parse_tcp_socket_with_allowed_hosts net raw allowed_hosts)

  unfoldable pub new_pool :
      (ℕ → ℕ → Trial) → List String → ℕ → ℕ → Option String → Option (List String) → NewPool IpAddr
  new_pool trials cmd pool_size max_in_flight tcp_socket allowed_hosts =
      if nat_eq pool_size 0
      then rejected zero_pool_size
      else start_on trials (is_external_mode cmd) pool_size
          (validate_max_in_flight_limit max_in_flight) tcp_socket (unwrap_or allowed_hosts [])
