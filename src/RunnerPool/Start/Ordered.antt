-- ===== src/RunnerPool/Start/Ordered.antt =====
-- The processes that `ensure_started` of rrq-rs/orchestrator/src/runner.rs starts.
use rrq.Prelude.{
  ℕ, zero, suc, ◌+◌, ◌≤◌, Bool, true, false, Option, none, some, List, [], ◌∷◌, ◌≡◌, refl, arith,
  length, subst, ap, sym, if◌then◌else◌,
}
use rrq.RunnerPool.{
  SocketProcess, SocketRunnerPool, next_tcp_socket, Trial, spawn_process, at_least_one,
}
use rrq.RunnerPool.Spawned.{Spawns, given_socket, spawn_attempts-Spawns}
use rrq.RunnerPool.Start.{
  Start, external_process, pushed, push_external, push_spawned, start_external, start_managed,
  or_cleared, start_all, start_if_empty, ensure_started, with_processes,
}

-- Processes with all their permits, on ports of their own from the first on.
abbrev pub Ordered : ℕ → ℕ → List SocketProcess → Type 0
Ordered max_in_flight first [] = Unit {0}
Ordered max_in_flight first (proc ∷ rest) =
    (first ≤ proc.socket)
    × (proc.socket ≤ 65535)
    × (proc.permits ≡ max_in_flight)
    × Ordered max_in_flight (suc proc.socket) rest

Ordered-le :
    (m a b : ℕ) (procs : List SocketProcess) → a ≤ b → Ordered m b procs → Ordered m a procs
Ordered-le m a b [] l o = omega arith
Ordered-le m a b (proc ∷ rest) l o = ground arith

abbrev next_port : SocketRunnerPool → ℕ
next_port pool = pool.port + pool.tcp_port_cursor

-- So many processes, or fewer where there was an error.
abbrev pub Starts : SocketRunnerPool → ℕ → Start → Type 0
Starts pool n (true, procs, pool') =
    (length procs ≡ n) × Ordered pool.max_in_flight (next_port pool) procs
Starts pool n (false, procs, pool') = Ordered pool.max_in_flight (next_port pool) procs

later :
    (pool pool1 : SocketRunnerPool) (proc : SocketProcess) (procs : List SocketProcess)
    → suc proc.socket ≤ next_port pool1
    → pool1.max_in_flight ≡ pool.max_in_flight
    → Ordered pool1.max_in_flight (next_port pool1) procs
    → Ordered pool.max_in_flight (suc proc.socket) procs
later pool pool1 proc procs l e o =
    Ordered-le pool.max_in_flight (suc proc.socket) (next_port pool1) procs l
      (subst (λ m. Ordered m (next_port pool1) procs) e o)

pushed-Starts :
    (pool pool1 : SocketRunnerPool) (n : ℕ) (proc : SocketProcess) (r : Start)
    → next_port pool ≤ proc.socket
    → proc.socket ≤ 65535
    → suc proc.socket ≤ next_port pool1
    → proc.permits ≡ pool.max_in_flight
    → pool1.max_in_flight ≡ pool.max_in_flight
    → Starts pool1 n r
    → Starts pool (suc n) (pushed proc r)
pushed-Starts pool pool1 n proc (true, procs, pool') a b c d e (counted, o) =
    (omega (arith, counted), (a, b, d, later pool pool1 proc procs c e o))
pushed-Starts pool pool1 n proc (false, procs, pool') a b c d e o =
    (a, b, d, later pool pool1 proc procs c e o)

push_external-Starts :
    (pool : SocketRunnerPool) (n : ℕ) (socket : Option ℕ) (rest : SocketRunnerPool → Start)
    → (next_tcp_socket pool).0 ≡ socket
    → Starts (next_tcp_socket pool).1 n (rest (next_tcp_socket pool).1)
    → Starts pool (suc n) (push_external (socket, (next_tcp_socket pool).1) rest)
unfolding next_tcp_socket
push_external-Starts pool n none rest e s = omega arith
push_external-Starts pool n (some socket) rest e s =
    let given = given_socket pool e in
    pushed-Starts pool (next_tcp_socket pool).1 n (external_process pool.max_in_flight socket)
      (rest (next_tcp_socket pool).1) (omega (arith, given.0)) given.1 (omega (arith, given.0)) refl
      refl s

start_external-Starts : (n : ℕ) (pool : SocketRunnerPool) → Starts pool n (start_external n pool)
start_external-Starts zero pool = (refl, omega arith)
start_external-Starts (suc n) pool =
    push_external-Starts pool n (next_tcp_socket pool).0 (start_external n) refl
      (start_external-Starts n (next_tcp_socket pool).1)

push_spawned-Starts :
    (pool : SocketRunnerPool) (n m : ℕ) (r : Option SocketProcess × SocketRunnerPool)
    (rest : SocketRunnerPool → Start)
    → Spawns pool m r
    → Starts r.1 n (rest r.1)
    → Starts pool (suc n) (push_spawned r rest)
push_spawned-Starts pool n m (none, pool1) rest sp s = omega arith
push_spawned-Starts pool n m (some proc, pool1) rest (moved, f) s =
    pushed-Starts pool pool1 n proc (rest pool1) f.unused f.is_port
      (omega (arith, f.counted, moved.port)) (ap (λ (p : SocketProcess). p.permits) f.fresh)
      moved.max_in_flight s

refused-Spawns :
    (external : Bool) (pool : SocketRunnerPool) (n : ℕ)
    (r : Option SocketProcess × SocketRunnerPool)
    → Spawns pool n r
    → Spawns pool n (if external then (none, pool) else r)
refused-Spawns true pool n r s = ground arith
refused-Spawns false pool n r s = s

spawn_process-Spawns :
    (trial : ℕ → Trial) (pool : SocketRunnerPool)
    → Spawns pool (at_least_one pool.pool_size) (spawn_process trial none pool)
unfolding spawn_process
spawn_process-Spawns trial pool =
    refused-Spawns pool.external pool _ _
      (spawn_attempts-Spawns trial (at_least_one pool.pool_size) pool)

start_managed-Starts :
    (trials : ℕ → ℕ → Trial) (n : ℕ) (pool : SocketRunnerPool)
    → Starts pool n (start_managed trials n pool)
start_managed-Starts trials zero pool = (refl, omega arith)
start_managed-Starts trials (suc n) pool =
    push_spawned-Starts pool n (at_least_one pool.pool_size) (spawn_process (trials n) none pool)
      (start_managed trials n) (spawn_process-Spawns (trials n) pool)
      (start_managed-Starts trials n (spawn_process (trials n) none pool).1)

-- The processes of a pool that has been started, or what is left where a start has failed.
abbrev pub Ensured : SocketRunnerPool → Bool × SocketRunnerPool → Type 0
Ensured pool (true, pool') =
    (length pool'.processes ≡ pool.pool_size)
    × Ordered pool.max_in_flight (next_port pool) pool'.processes
Ensured pool (false, pool') = Ordered pool.max_in_flight (next_port pool) pool'.processes

with_processes-Ensured :
    (pool : SocketRunnerPool) (r : Start)
    → Starts pool pool.pool_size r
    → Ensured pool (with_processes r)
with_processes-Ensured pool (true, procs, pool') s = s
with_processes-Ensured pool (false, procs, pool') s = s

start_all-Starts :
    (external : Bool) (pool : SocketRunnerPool) (e m : Start)
    → Starts pool pool.pool_size e
    → Starts pool pool.pool_size m
    → Starts pool pool.pool_size (if external then e else or_cleared m)
start_all-Starts true pool e m se sm = se
start_all-Starts false pool e (true, procs, pool') se sm = sm
start_all-Starts false pool e (false, procs, pool') se sm = omega arith

-- Starting an empty pool gives as many processes as the pool has to have, each with all its permits
-- and on a port of its own, from the next port of the pool on and no higher than the last port
-- there is; where it fails, the processes that are left have such permits and ports.
pub ensure_started-Ensured :
    (trials : ℕ → ℕ → Trial) (pool : SocketRunnerPool)
    → pool.processes ≡ []
    → Ensured pool (ensure_started trials pool)
unfolding ensure_started
ensure_started-Ensured trials pool e =
    subst (λ procs. Ensured pool (start_if_empty trials pool procs)) (sym e)
      (with_processes-Ensured pool (start_all trials pool) (
        start_all-Starts pool.external pool _ _ (start_external-Starts pool.pool_size pool)
          (start_managed-Starts trials pool.pool_size pool)))
