-- ===== src/Examples/Sockets.antt =====
-- The theorems on endpoints and on the start of a pool at concrete data.
use rrq.Prelude.{
  ◌≤◌, ℕ, ◌≡◌, String, true, false, none, some, List, [], ◌∷◌, ◌==◌, nat_eq, refl, arith,
  if◌then◌else◌, Option,
}
use rrq.Prelude.Texts.{parse_u16}
use rrq.Config.{validate_max_in_flight_limit}
use rrq.Config.TcpSocket.{
  Network, endpoint, split_endpoint, parse_tcp_socket, parse_tcp_socket_with_allowed_hosts,
  parse_runner_socket,
}
use rrq.Config.TcpSocket.Loopback.{
  Allows, endpoint_of, parse_tcp_socket-runner, parse_tcp_socket_with_allowed_hosts-Allows,
}
use rrq.RunnerPool.{
  SocketProcess, SocketRunnerPool, Trial, connected, not_connected, spawn_process, spawn_attempts,
  next_tcp_socket,
}
use rrq.RunnerPool.Build.{
  RunnerEntry, built, number_of, runner_tcp_socket_from_host_port, build_runner,
  build_runners_from_settings_filtered,
}
use rrq.RunnerPool.Build.Needed.{PoolsFor, build_runners-PoolsFor}
use rrq.RunnerPool.Start.{new_pool, ensure_started, started}
use rrq.RunnerPool.Start.Checked.{Checked, new_pool-Checked}

-- Addresses are numbers, and 1 is the loopback address.
abbrev address : String → Option ℕ
address host = if host == "127.0.0.1" then some 1 else if host == "10.0.0.1" then some 10 else none

abbrev network : Network
network = record {
  IpAddr = ℕ;
  localhost = 1;
  is_loopback = λ ip. nat_eq ip 1;
  parse_ip = address;
  to_socket_addrs = λ host port. some (20 ∷ []);
  trim = λ s. s;
}

parse_tcp_socket-runner_example :
    endpoint_of network (parse_tcp_socket network "127.0.0.1:9000")
    ≡ endpoint_of network (parse_runner_socket network "127.0.0.1:9000")
parse_tcp_socket-runner_example = parse_tcp_socket-runner network "127.0.0.1:9000"

accepted :
    parse_tcp_socket_with_allowed_hosts network "[10.0.0.1]:9000" ("10.0.0.1" ∷ [])
    ≡ endpoint 10 9000
unfolding parse_tcp_socket_with_allowed_hosts split_endpoint parse_u16
accepted = refl

parse_tcp_socket_with_allowed_hosts-Allows_example :
    Allows network (split_endpoint "[10.0.0.1]:9000") ("10.0.0.1" ∷ []) 10 9000
parse_tcp_socket_with_allowed_hosts-Allows_example =
    parse_tcp_socket_with_allowed_hosts-Allows network "[10.0.0.1]:9000" ("10.0.0.1" ∷ []) 10 9000
      refl accepted

-- The second process does not answer at first, and gets the next port.
abbrev trials : ℕ → ℕ → Trial
trials process attempt =
    if nat_eq process 0 then (if nat_eq attempt 1 then not_connected else connected) else connected

abbrev two_processes : List SocketProcess
two_processes =
    record { child = some true; socket = 9000; permits = 4; connection = none }
    ∷ record { child = some true; socket = 9002; permits = 4; connection = none }
    ∷ []

abbrev with_two : SocketRunnerPool
with_two = record {
  external = false;
  pool_size = 2;
  max_in_flight = 4;
  port = 9000;
  tcp_port_cursor = 3;
  processes = two_processes;
  cursor = 0;
}

pool_made :
    new_pool network trials ("python" ∷ []) 2 4 (some "127.0.0.1:9000") none ≡ started 1 with_two
unfolding new_pool validate_max_in_flight_limit parse_tcp_socket_with_allowed_hosts split_endpoint
    parse_u16 ensure_started spawn_process spawn_attempts next_tcp_socket
pool_made = refl

new_pool-Checked_example : Checked network "127.0.0.1:9000" [] 2 4 1 with_two
new_pool-Checked_example =
    new_pool-Checked network trials ("python" ∷ []) 2 4 "127.0.0.1:9000" none 1 with_two refl
      (omega arith) pool_made

-- Two runners are configured, and only the first is needed.
abbrev entry : List String → RunnerEntry
entry cmd = record { cmd = some cmd; tcp_host = none; tcp_port = some 9000; allowed_hosts = none }

abbrev entries : List (String × RunnerEntry)
entries = ("python", entry ("python" ∷ [])) ∷ ("node", entry ("node" ∷ [])) ∷ []

abbrev sizes : List (String × ℕ)
sizes = ("python", 2) ∷ []

abbrev limits : List (String × ℕ)
limits = ("python", 4) ∷ []

sizes-fit : (name : String) (n : ℕ) → number_of sizes name ≡ some n → n ≤ 4294901760
sizes-fit name n h = ground arith

only_needed :
    build_runners_from_settings_filtered network
      (λ port. "9000")
      (λ name. trials)
      false
      sizes
      limits
      (some ("python" ∷ []))
      entries
    ≡ built (("python", 1, with_two) ∷ [])
unfolding build_runners_from_settings_filtered build_runner runner_tcp_socket_from_host_port
    new_pool validate_max_in_flight_limit parse_tcp_socket_with_allowed_hosts split_endpoint
    parse_u16 ensure_started spawn_process spawn_attempts next_tcp_socket
only_needed = refl

build_runners-PoolsFor_example :
    PoolsFor network
      (λ port. "9000")
      (λ name. trials)
      false
      sizes
      limits
      (some ("python" ∷ []))
      entries
      (("python", 1, with_two) ∷ [])
build_runners-PoolsFor_example =
    build_runners-PoolsFor network (λ port. "9000") (λ name. trials) false sizes limits
      (some ("python" ∷ [])) entries (("python", 1, with_two) ∷ []) refl sizes-fit only_needed
