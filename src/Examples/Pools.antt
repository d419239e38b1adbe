-- ===== src/Examples/Pools.antt =====
-- The theorems on the pools of runner processes at concrete data.
use rrq.Prelude.{◌≡◌, true, false, none, some, List, [], ◌∷◌, arith}
use rrq.Runner.Tables.{without}
use rrq.RunnerPool.{SocketRunnerPool, connected, acquire_turn}
use rrq.RunnerPool.Acquired.{Turned, acquire_turn-Turned}
use rrq.RunnerPool.Timeouts.{InFlight, response_timeout, finalize_execute_result}
use rrq.RunnerPool.Alike.{Spares, finalize-Spares}
use rrq.RunnerPool.Connection.{Event, insert, remove, read, outcome, closed_by_peer, run, opened}
use rrq.RunnerPool.Connection.Once.{uses, issued, run-opened_once}

-- One process has ended, and the other has no free permit.
abbrev sample_pool : SocketRunnerPool
sample_pool = record {
  external = false;
  pool_size = 2;
  max_in_flight = 4;
  port = 9000;
  tcp_port_cursor = 2;
  processes =
      record { child = some true; socket = 9000; permits = 0; connection = some 1 }
      ∷ record { child = some false; socket = 9001; permits = 2; connection = none }
      ∷ [];
  cursor = 6;
}

acquire_turn-Turned_example :
    Turned sample_pool (acquire_turn (λ index n. connected) (λ index n. connected) sample_pool)
acquire_turn-Turned_example =
    acquire_turn-Turned (λ index n. connected) (λ index n. connected) sample_pool (omega arith)

-- Two requests on one socket.
abbrev two_requests : InFlight
two_requests =
    ("r", record { job_id = "a"; socket = 9000 })
    ∷ ("s", record { job_id = "b"; socket = 9000 })
    ∷ []

finalize-Spares_example :
    let done = finalize_execute_result false false "r" response_timeout two_requests in
    (done.in_flight ≡ without two_requests "r")
    × (done.terminated_socket ≡ some 9000
        → (response_timeout ≡ response_timeout) × Spares "r" false two_requests 9000)
finalize-Spares_example = finalize-Spares false false "r" response_timeout two_requests 9000

-- Three requests: one is answered, one is taken back, and one is left when the peer closes.
abbrev traffic : List Event
traffic =
    insert "r"
    ∷ insert "s"
    ∷ read (outcome (some "r") (some "a"))
    ∷ remove "s"
    ∷ insert "t"
    ∷ read closed_by_peer
    ∷ []

run-opened_once_example : uses 1 (run traffic opened) ≡ issued 1 (run traffic opened)
run-opened_once_example = run-opened_once 1 traffic
