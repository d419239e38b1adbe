-- ===== src/RunnerPool.antt =====
-- `SocketRunnerPool` of rrq-rs/orchestrator/src/runner.rs: the processes of a runner, their sockets
-- and permits. The sockets of a pool have one host, so a socket is its port. Whether a port is free,
-- a command starts and a process answers or has ended is the environment's choice; delays, log lines
-- and the output of the processes are left out.
pub mod Spawned
pub mod Start
pub mod Build
pub mod Ready
pub mod Acquired
pub mod Timeouts
pub mod Alike
pub mod Connection
use rrq.Prelude.{
  ℕ, zero, suc, ◌+◌, ◌-◌, ◌%◌, Bool, true, false, Option, none, some, List, [], ◌∷◌, ◌++◌, length,
  if◌then◌else◌, ltb, leb, nat_eq, unwrap_or, not, ◌&&◌,
}

-- A child is alive or has ended. The permits are those that are free; a connection has a number.
pub record SocketProcess : Type 0 where
  pub child : Option Bool
  pub socket : ℕ
  pub permits : ℕ
  pub connection : Option ℕ

pub record SocketRunnerPool : Type 0 where
  pub external : Bool
  pub pool_size : ℕ
  pub max_in_flight : ℕ
  pub port : ℕ
  pub tcp_port_cursor : ℕ
  pub processes : List SocketProcess
  pub cursor : ℕ

-- The next socket, where its port is a u16, and the pool with its cursor moved on in any case.
unfoldable pub next_tcp_socket : SocketRunnerPool → Option ℕ × SocketRunnerPool
next_tcp_socket pool = (
  (if ltb 65535 (pool.port + pool.tcp_port_cursor)
      then none
      else some (pool.port + pool.tcp_port_cursor)),
  record pool { tcp_port_cursor = pool.tcp_port_cursor + 1 },
)

-- How an attempt to start a process goes: its port is taken, the command does not start, the process
-- does not answer, or it does.
pub data Trial : Type 0 where
  port_taken not_started not_connected connected : Trial

abbrev pub reuse_socket_max_attempts : ℕ
reuse_socket_max_attempts = 5

abbrev pub fresh_process : ℕ → ℕ → SocketProcess
fresh_process max_in_flight socket = record {
  child = some true;
  socket = socket;
  permits = max_in_flight;
  connection = none;
}

-- The socket of an attempt.
abbrev pub socket_for : Option ℕ → SocketRunnerPool → Option ℕ × SocketRunnerPool
socket_for (some socket) pool = (some socket, pool)
socket_for none pool = next_tcp_socket pool

abbrev pub is_reused : Option ℕ → Bool
is_reused none = false
is_reused (some socket) = true

abbrev pub attempt_on :
    Trial
    → Option ℕ
    → Option ℕ × SocketRunnerPool
    → (SocketRunnerPool → Option SocketProcess × SocketRunnerPool)
    → Option SocketProcess × SocketRunnerPool
attempt_on trial reuse (none, pool) again = (none, pool)
attempt_on port_taken reuse (some socket, pool) again = again pool
attempt_on not_started reuse (some socket, pool) again = (none, pool)
attempt_on not_connected reuse (some socket, pool) again =
    if is_reused reuse then (none, pool) else again pool
attempt_on connected reuse (some socket, pool) again =
    (some (fresh_process pool.max_in_flight socket), pool)

-- The loop of `spawn_process`, for so many attempts more; `none` is the error.
unfoldable pub spawn_attempts :
    (ℕ → Trial) → Option ℕ → ℕ → SocketRunnerPool → Option SocketProcess × SocketRunnerPool
spawn_attempts trial reuse zero pool = (none, pool)
spawn_attempts trial reuse (suc left) pool =
    let again = spawn_attempts trial reuse left in
    attempt_on (trial left) reuse (socket_for reuse pool) again

abbrev pub at_least_one : ℕ → ℕ
at_least_one zero = 1
at_least_one (suc n) = suc n

unfoldable pub spawn_process :
    (ℕ → Trial) → Option ℕ → SocketRunnerPool → Option SocketProcess × SocketRunnerPool
spawn_process trial reuse pool =
    if pool.external
    then (none, pool)
    else spawn_attempts trial reuse
        (if is_reused reuse then reuse_socket_max_attempts else at_least_one pool.pool_size) pool

abbrev pub terminated : SocketProcess → SocketProcess
terminated proc = record proc { child = none; connection = none }

abbrev pub set_at : ℕ → SocketProcess → List SocketProcess → List SocketProcess
set_at index proc [] = []
set_at zero proc (x ∷ xs) = proc ∷ xs
set_at (suc n) proc (x ∷ xs) = x ∷ set_at n proc xs

abbrev pub process_at : ℕ → List SocketProcess → Option SocketProcess
process_at index [] = none
process_at zero (x ∷ xs) = some x
process_at (suc n) (x ∷ xs) = process_at n xs

-- The second attempt of `respawn`, on a new socket.
abbrev pub or_new_socket :
    (ℕ → Trial) → Option SocketProcess × SocketRunnerPool → Option SocketProcess × SocketRunnerPool
or_new_socket trial (some proc, pool) = (some proc, pool)
or_new_socket trial (none, pool) = spawn_process trial none pool

abbrev pub replaced_by :
    ℕ → SocketProcess → Option SocketProcess × SocketRunnerPool → Bool × SocketRunnerPool
replaced_by index proc (none, pool) =
    (false, record pool { processes = set_at index (terminated proc) pool.processes })
replaced_by index proc (some replacement, pool) =
    (true, record pool { processes = set_at index replacement pool.processes })

-- `respawn`: the process is terminated, and replaced on its socket or on a new one. `false` is the
-- error, which leaves the terminated process.
unfoldable pub respawn :
    (ℕ → Trial) → (ℕ → Trial) → ℕ → SocketProcess → SocketRunnerPool → Bool × SocketRunnerPool
respawn reuse_trial new_trial index proc pool =
    if pool.external
    then (
      true,
      record pool { processes = set_at index (record proc { connection = none }) pool.processes },
    )
    else replaced_by index proc
        (or_new_socket new_trial (spawn_process reuse_trial (some proc.socket) pool))

abbrev pub is_alive : Option Bool → Bool
is_alive none = false
is_alive (some alive) = alive

unfoldable pub ensure_process :
    (ℕ → Trial) → (ℕ → Trial) → ℕ → SocketProcess → SocketRunnerPool → Bool × SocketRunnerPool
ensure_process reuse_trial new_trial index proc pool =
    if pool.external
    then (true, pool)
    else if is_alive proc.child
    then (true, pool)
    else respawn reuse_trial new_trial index proc pool

-- How a look at the processes ends: with the index of the process whose permit was taken, with an
-- error, or with none free, after which the caller waits for a notification.
pub data Look : Type 0 where
  acquired : ℕ → Look
  failed : Look
  none_free : Look

abbrev pub take_permit :
    ℕ
    → Option SocketProcess
    → SocketRunnerPool
    → (SocketRunnerPool → Look × SocketRunnerPool)
    → Look × SocketRunnerPool
take_permit index none pool next = (failed, pool)
take_permit index (some proc) pool next = if nat_eq proc.permits 0 then next pool else (
  acquired index,
  record pool {
    processes = set_at index (record proc { permits = proc.permits - 1 }) pool.processes;
  },
)

abbrev pub after_ensure :
    ℕ
    → Bool × SocketRunnerPool
    → (SocketRunnerPool → Look × SocketRunnerPool)
    → Look × SocketRunnerPool
after_ensure index (false, pool) next = (failed, pool)
after_ensure index (true, pool) next = take_permit index (process_at index pool.processes) pool next

abbrev pub look_at :
    (ℕ → ℕ → Trial)
    → (ℕ → ℕ → Trial)
    → ℕ
    → Option SocketProcess
    → SocketRunnerPool
    → (SocketRunnerPool → Look × SocketRunnerPool)
    → Look × SocketRunnerPool
look_at reuse_trial new_trial index none pool next = (failed, pool)
look_at reuse_trial new_trial index (some proc) pool next =
    after_ensure index (ensure_process (reuse_trial index) (new_trial index) index proc pool) next

-- `for offset in 0..processes.len()`: so many processes from the offset on.
unfoldable pub scan :
    (ℕ → ℕ → Trial) → (ℕ → ℕ → Trial) → ℕ → ℕ → ℕ → SocketRunnerPool → Look × SocketRunnerPool
scan reuse_trial new_trial start zero offset pool = (none_free, pool)
scan reuse_trial new_trial start (suc left) offset pool =
    let next = scan reuse_trial new_trial start left (suc offset) in
    let index = (start + offset) % length pool.processes in
    look_at reuse_trial new_trial index (process_at index pool.processes) pool next

-- A turn of the loop of `acquire_process`.
unfoldable pub acquire_turn :
    (ℕ → ℕ → Trial) → (ℕ → ℕ → Trial) → SocketRunnerPool → Look × SocketRunnerPool
acquire_turn reuse_trial new_trial pool =
    if nat_eq (length pool.processes) 0
    then (failed, pool)
    else scan reuse_trial new_trial pool.cursor (length pool.processes) 0
        (record pool { cursor = pool.cursor + 1 })
