-- ===== src/Config/TcpSocket.antt =====
-- rrq-rs/config/src/tcp_socket.rs, which reads the endpoint of a runner, and `parse_tcp_socket` of
-- rrq-rs/runner/src/runtime.rs, which reads the endpoint that the runner is started with. Addresses,
-- their parser and the resolver of host names are parameters.
pub mod Loopback
use rrq.Prelude.{
  ℕ, String, Bool, true, false, Option, none, some, List, [], ◌∷◌, ◌==◌, ◌||◌, nat_eq,
  if◌then◌else◌,
}
use rrq.Prelude.Texts.{strip_prefix, split_once, rsplit_once, eq_ignore_ascii_case, parse_u16}

pub record Network : Type 1 where
  pub IpAddr : Type 0
  pub localhost : IpAddr
  pub is_loopback : IpAddr → Bool
  -- `host.parse::<IpAddr>()`.
  pub parse_ip : String → Option IpAddr
  -- `(host, port).to_socket_addrs()`, which may fail.
  pub to_socket_addrs : String → ℕ → Option (List IpAddr)
  pub trim : String → String

pub data SocketError : Type 0 where
  is_empty not_bracketed not_host_port host_empty invalid_port zero_port : SocketError
  not_loopback not_allowed invalid_host no_addresses : SocketError

pub data Split : Type 0 where
  host_port : String → String → Split
  unsplit : SocketError → Split

-- The result of a parser of endpoints: `TcpSocketSpec`, or `SocketAddr`.
pub data Parsed (IpAddr : Type 0) : Type 0 where
  endpoint : IpAddr → ℕ → Parsed IpAddr
  refused : SocketError → Parsed IpAddr

abbrev pub bracketed : Option (String × String) → Split
bracketed none = unsplit not_bracketed
bracketed (some (host, port)) = host_port host port

abbrev pub unbracketed : Option (String × String) → Split
unbracketed none = unsplit not_host_port
unbracketed (some (host, port)) = if host == "" then unsplit host_empty else host_port host port

abbrev split_from : Option String → String → Split
split_from (some rest) raw = bracketed (split_once rest "]:")
split_from none raw = unbracketed (rsplit_once raw ":")

-- The host and the text of the port of a trimmed endpoint.
unfoldable pub split_endpoint : String → Split
split_endpoint raw = if raw == "" then unsplit is_empty else split_from (strip_prefix raw "[") raw

-- `allowed_hosts.iter().any(|allowed| allowed.eq_ignore_ascii_case(host))`.
abbrev pub is_allowed_host : List String → String → Bool
is_allowed_host [] host = false
is_allowed_host (allowed ∷ rest) host =
    eq_ignore_ascii_case allowed host || is_allowed_host rest host

module _ (net : Network) where
  open net use {IpAddr, localhost, is_loopback, parse_ip, to_socket_addrs, trim}

  abbrev pub resolved : Option (List IpAddr) → ℕ → Parsed IpAddr
  resolved none port = refused invalid_host
  resolved (some []) port = refused no_addresses
  resolved (some (ip ∷ rest)) port = endpoint ip port

  abbrev pub named_host : Option IpAddr → Bool → String → ℕ → Parsed IpAddr
  named_host (some ip) allowed host port =
      if is_loopback ip || allowed then endpoint ip port else refused not_loopback
  named_host none allowed host port =
      if allowed then resolved (to_socket_addrs host port) port else refused not_allowed

  abbrev pub with_port : Option ℕ → (ℕ → Parsed IpAddr) → Parsed IpAddr
  with_port none rest = refused invalid_port
  with_port (some port) rest = if nat_eq port 0 then refused zero_port else rest port

  abbrev pub of_split : Split → List String → Parsed IpAddr
  of_split (unsplit e) allowed_hosts = refused e
  of_split (host_port host port_str) allowed_hosts = with_port (parse_u16 port_str) (λ port.
      if host == "localhost"
      then endpoint localhost port
      else named_host (parse_ip host) (is_allowed_host allowed_hosts host) host port)

  unfoldable pub parse_tcp_socket_with_allowed_hosts : String → List String → Parsed IpAddr
  parse_tcp_socket_with_allowed_hosts raw allowed_hosts =
      of_split (split_endpoint (trim raw)) allowed_hosts

  unfoldable pub parse_tcp_socket : String → Parsed IpAddr
  parse_tcp_socket raw = parse_tcp_socket_with_allowed_hosts raw []

  abbrev pub runner_host : Option IpAddr → ℕ → Parsed IpAddr
  runner_host none port = refused invalid_host
  runner_host (some ip) port = if is_loopback ip then endpoint ip port else refused not_loopback

  abbrev pub runner_endpoint : Split → Parsed IpAddr
  runner_endpoint (unsplit e) = refused e
  runner_endpoint (host_port host port_str) = with_port (parse_u16 port_str) (λ port.
      if host == "localhost" then endpoint localhost port else runner_host (parse_ip host) port)

  -- `parse_tcp_socket` of the runner.
  unfoldable pub parse_runner_socket : String → Parsed IpAddr
  parse_runner_socket raw = runner_endpoint (split_endpoint (trim raw))
