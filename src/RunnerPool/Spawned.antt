-- ===== src/RunnerPool/Spawned.antt =====
-- The processes that `spawn_process` of rrq-rs/orchestrator/src/runner.rs gives.
use rrq.Prelude.{ℕ, zero, suc, ◌+◌, ◌≤◌, ◌<◌, Option, none, some, ◌≡◌, refl, arith}
use rrq.RunnerPool.{
  SocketProcess, SocketRunnerPool, next_tcp_socket, Trial, port_taken, not_started, not_connected,
  connected, fresh_process, attempt_on, spawn_attempts,
}

-- What is left alone, and how far the cursor of the ports has moved.
pub record Moved (pool : SocketRunnerPool) (n : ℕ) (pool' : SocketRunnerPool) : Type 0 where
  pub external : pool'.external ≡ pool.external
  pub processes : pool'.processes ≡ pool.processes
  pub max_in_flight : pool'.max_in_flight ≡ pool.max_in_flight
  pub port : pool'.port ≡ pool.port
  pub forward : pool.tcp_port_cursor ≤ pool'.tcp_port_cursor
  pub bounded : pool'.tcp_port_cursor ≤ pool.tcp_port_cursor + n

-- A fresh process on a socket that no call before has been given, and that is a port.
pub record IsFresh (pool pool' : SocketRunnerPool) (proc : SocketProcess) : Type 0 where
  pub fresh : proc ≡ fresh_process pool.max_in_flight proc.socket
  pub unused : pool.port + pool.tcp_port_cursor ≤ proc.socket
  pub counted : proc.socket < pool.port + pool'.tcp_port_cursor
  pub is_port : proc.socket ≤ 65535

abbrev pub Spawns : SocketRunnerPool → ℕ → Option SocketProcess × SocketRunnerPool → Type 0
Spawns pool n (none, pool') = Moved pool n pool'
Spawns pool n (some proc, pool') = Moved pool n pool' × IsFresh pool pool' proc

later :
    (pool : SocketRunnerPool) (n : ℕ) (r : Option SocketProcess × SocketRunnerPool)
    → Spawns (next_tcp_socket pool).1 n r
    → Spawns pool (suc n) r
unfolding next_tcp_socket
later pool n (none, pool') m = ground arith
later pool n (some proc, pool') (m, f) = ground arith

pub given_socket :
    (pool : SocketRunnerPool) {socket : ℕ}
    → (next_tcp_socket pool).0 ≡ some socket
    → (socket ≡ pool.port + pool.tcp_port_cursor) × (socket ≤ 65535)
unfolding next_tcp_socket
given_socket pool e = ground arith

attempt-Spawns :
    (trial : Trial) (pool : SocketRunnerPool) (left : ℕ) (socket : Option ℕ)
    (again : SocketRunnerPool → Option SocketProcess × SocketRunnerPool)
    → (next_tcp_socket pool).0 ≡ socket
    → Spawns (next_tcp_socket pool).1 left (again (next_tcp_socket pool).1)
    → Spawns pool (suc left) (attempt_on trial none (socket, (next_tcp_socket pool).1) again)
unfolding next_tcp_socket
attempt-Spawns trial pool left none again e h = ground arith
attempt-Spawns port_taken pool left (some s) again e h = later pool left (again _) h
attempt-Spawns not_started pool left (some s) again e h = ground arith
attempt-Spawns not_connected pool left (some s) again e h = later pool left (again _) h
attempt-Spawns connected pool left (some s) again e h =
    let given = given_socket pool e in (ground arith, ground arith)

-- On new sockets: so many attempts allocate at most so many ports and leave the pool's processes
-- alone, and a process that they give has all its permits and stands on one of these ports.
pub spawn_attempts-Spawns :
    (trial : ℕ → Trial) (left : ℕ) (pool : SocketRunnerPool)
    → Spawns pool left (spawn_attempts trial none left pool)
unfolding spawn_attempts
spawn_attempts-Spawns trial zero pool = ground arith
spawn_attempts-Spawns trial (suc left) pool =
    attempt-Spawns (trial left) pool left (next_tcp_socket pool).0 (spawn_attempts trial none left)
      refl (spawn_attempts-Spawns trial left (next_tcp_socket pool).1)
