-- ===== src/Config/TcpSocket/Loopback.antt =====
-- Which endpoints the parsers of rrq-rs/config/src/tcp_socket.rs and rrq-rs/runner/src/runtime.rs
-- accept.
use Prim.Native.Char.{code}
use Prim.Native.String.{[] as text_nil, ◌∷◌ as text_cons}
use rrq.Prelude.{
  ℕ, ◌+◌, ◌-◌, ◌*◌, ◌≤◌, String, Bool, true, false, Option, none, some, List, [], ◌∷◌, ◌≡◌, ◌⊎◌,
  inl, inr, refl, arith, ◌==◌, leb, nat_eq, if◌then◌else◌, Option-cases, Bool-cases, unwrap_or,
}
use rrq.Prelude.Texts.{strip_prefix, parse_u16, digits_u16}
use rrq.Config.TcpSocket.{
  Network, Split, host_port, unsplit, Parsed, endpoint, refused, split_endpoint, is_allowed_host,
  resolved, named_host, of_split, parse_tcp_socket_with_allowed_hosts, parse_tcp_socket,
  runner_host, runner_endpoint, parse_runner_socket,
}

digits_u16-le :
    (n : ℕ) (s : String) (port : ℕ) → n ≤ 65535 → digits_u16 n s ≡ some port → port ≤ 65535
digits_u16-le n text_nil port l h = grind arith
digits_u16-le n (text_cons c rest) port l h =
    let next = n * 10 + (code c - 48) in
    elim (Bool-cases (leb next 65535)) [
      | inl small ↦ digits_u16-le next rest port (ground arith) (ground arith)
      | inr large ↦ ground arith
    ]

parse_u16-le : (s : String) (port : ℕ) → parse_u16 s ≡ some port → port ≤ 65535
unfolding parse_u16
parse_u16-le s port h =
    digits_u16-le 0 (unwrap_or (strip_prefix s "+") s) port (omega arith) (ground arith)

module _ (net : Network) where
  open net use {IpAddr, localhost, is_loopback, parse_ip, to_socket_addrs, trim}

  resolved-port :
      (found : Option (List IpAddr)) (asked : ℕ) (ip : IpAddr) (port : ℕ)
      → resolved net found asked ≡ endpoint ip port
      → asked ≡ port
  resolved-port none asked ip port h = ground arith
  resolved-port (some []) asked ip port h = ground arith
  resolved-port (some (x ∷ rest)) asked ip port h = ground arith

  named_host-allowed :
      (parsed : Option IpAddr) (allowed : Bool) (host : String) (asked : ℕ) (ip : IpAddr) (port : ℕ)
      → named_host net parsed allowed host asked ≡ endpoint ip port
      → (asked ≡ port) × ((is_loopback ip ≡ true) ⊎ (allowed ≡ true))
  named_host-allowed (some x) true host asked ip port h = elim (Bool-cases (is_loopback x)) [
    | inl e ↦ (ground arith, inr refl)
    | inr e ↦ (ground arith, inr refl)
  ]
  named_host-allowed (some x) false host asked ip port h = elim (Bool-cases (is_loopback x)) [
    | inl e ↦ (ground arith, inl (ground arith))
    | inr e ↦ ground arith
  ]
  named_host-allowed none true host asked ip port h =
      (resolved-port (to_socket_addrs host asked) asked ip port h, inr refl)
  named_host-allowed none false host asked ip port h = ground arith

  -- What an accepted endpoint stands for: its text has a host and a port, and its address is a
  -- loopback address or its host is on the list.
  abbrev pub Allows : Split → List String → IpAddr → ℕ → Type 0
  Allows split allowed_hosts ip port =
      (host : String) × (port_str : String) × (split ≡ host_port host port_str)
      × (parse_u16 port_str ≡ some port)
      × (1 ≤ port)
      × (port ≤ 65535)
      × ((is_loopback ip ≡ true) ⊎ (is_allowed_host allowed_hosts host ≡ true))

  host-allowed :
      (host : String) (allowed : Bool) (asked : ℕ) (ip : IpAddr) (port : ℕ)
      → is_loopback localhost ≡ true
      → (if host == "localhost"
          then endpoint localhost asked
          else named_host net (parse_ip host) allowed host asked)
        ≡ endpoint ip port
      → (asked ≡ port) × ((is_loopback ip ≡ true) ⊎ (allowed ≡ true))
  host-allowed host allowed asked ip port l h = elim (Bool-cases (host == "localhost")) [
    | inl e ↦ (ground arith, inl (grind arith))
    | inr e ↦ named_host-allowed (parse_ip host) allowed host asked ip port (ground arith)
  ]

  of_split-allowed :
      (split : Split) (allowed_hosts : List String) (ip : IpAddr) (port : ℕ)
      → is_loopback localhost ≡ true
      → of_split net split allowed_hosts ≡ endpoint ip port
      → Allows split allowed_hosts ip port
  of_split-allowed (unsplit e) allowed_hosts ip port l h = ground arith
  of_split-allowed (host_port host port_str) allowed_hosts ip port l h =
      elim (Option-cases (parse_u16 port_str)) [
        | inl e ↦ ground arith
        | inr (asked, e) ↦ elim (Bool-cases (nat_eq asked 0)) [
          | inl z ↦ ground arith
          | inr z ↦
              (let a =
                  host-allowed host (is_allowed_host allowed_hosts host) asked ip port l
                    (ground arith) in
                (
                  host,
                  port_str,
                  refl,
                  grind arith,
                  ground arith,
                  parse_u16-le port_str port (grind arith),
                  a.1,
                ))
        ]
      ]

  abbrev pub endpoint_of : Parsed IpAddr → Option (IpAddr × ℕ)
  endpoint_of (endpoint ip port) = some (ip, port)
  endpoint_of (refused e) = none

  runner_host-named :
      (parsed : Option IpAddr) (host : String) (port : ℕ)
      → endpoint_of (named_host net parsed false host port)
        ≡ endpoint_of (runner_host net parsed port)
  runner_host-named none host port = refl
  runner_host-named (some ip) host port = ground arith

  runner_endpoint-split :
      (split : Split)
      → endpoint_of (of_split net split []) ≡ endpoint_of (runner_endpoint net split)
  runner_endpoint-split (unsplit e) = refl
  runner_endpoint-split (host_port host port_str) = elim (Option-cases (parse_u16 port_str)) [
    | inl e ↦ ground arith
    | inr (port, e) ↦ ground (arith, runner_host-named (parse_ip host) host port)
  ]

  -- The endpoints that the configuration accepts without a list of allowed hosts are those that the
  -- runner accepts, and both read the same address and port from them.
  pub parse_tcp_socket-runner :
      (raw : String)
      → endpoint_of (parse_tcp_socket net raw) ≡ endpoint_of (parse_runner_socket net raw)
  unfolding parse_tcp_socket parse_tcp_socket_with_allowed_hosts parse_runner_socket
  parse_tcp_socket-runner raw = runner_endpoint-split (split_endpoint (trim raw))

  -- An endpoint that the parser accepts, with a list of allowed hosts, has a port from 1 to 65535,
  -- which is the one in its text, and its address is a loopback address or the host in its text is
  -- on the list, if the address of localhost is a loopback address.
  pub parse_tcp_socket_with_allowed_hosts-Allows :
      (raw : String) (allowed_hosts : List String) (ip : IpAddr) (port : ℕ)
      → is_loopback localhost ≡ true
      → parse_tcp_socket_with_allowed_hosts net raw allowed_hosts ≡ endpoint ip port
      → Allows (split_endpoint (trim raw)) allowed_hosts ip port
  unfolding parse_tcp_socket_with_allowed_hosts
  parse_tcp_socket_with_allowed_hosts-Allows raw allowed_hosts ip port l h =
      of_split-allowed (split_endpoint (trim raw)) allowed_hosts ip port l h
