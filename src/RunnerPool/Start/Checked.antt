-- ===== src/RunnerPool/Start/Checked.antt =====
-- What a pool that `SocketRunnerPool::new` of rrq-rs/orchestrator/src/runner.rs gives has been
-- checked for.
use rrq.Prelude.{
  ℕ, ◌+◌, ◌-◌, ◌≤◌, String, Bool, true, false, Option, some, List, [], ◌≡◌, inl, inr, refl, arith,
  length, Option-cases, Bool-cases, unwrap_or, ltb, subst, ap, ◌∙◌,
}
use rrq.Config.{validate_max_in_flight_limit}
use rrq.Config.TcpSocket.{
  Network, Parsed, endpoint, refused, split_endpoint, parse_tcp_socket_with_allowed_hosts,
}
use rrq.Config.TcpSocket.Loopback.{Allows, parse_tcp_socket_with_allowed_hosts-Allows}
use rrq.RunnerPool.{SocketRunnerPool, Trial}
use rrq.RunnerPool.Start.{
  started, max_port, new_of, or_closed, start_at, is_external_mode, new_pool, ensure_started,
}
use rrq.RunnerPool.Start.Ordered.{Ordered, Ensured, ensure_started-Ensured}

limit-le :
    (limit m : ℕ) → validate_max_in_flight_limit limit ≡ some m → (m ≡ limit) × (1 ≤ m) × (m ≤ 64)
unfolding validate_max_in_flight_limit
limit-le limit m h = (ground arith, ground arith, ground arith)

max_port-fits :
    (port pool_size : ℕ)
    → port ≤ 65535
    → 1 ≤ pool_size
    → pool_size ≤ 4294901760
    → max_port port pool_size ≤ 65535
    → port + (pool_size - 1) ≤ 65535
max_port-fits port pool_size a b c d = omega arith

module _ {IpAddr : Type 0} where
  or_closed-started :
      (host ip : IpAddr) (fresh pool : SocketRunnerPool) (r : Bool × SocketRunnerPool)
      → Ensured fresh r
      → or_closed host r ≡ started ip pool
      → (host ≡ ip) × Ensured fresh (true, pool)
  or_closed-started host ip fresh pool (true, p) s h =
      let same : p ≡ pool = grind arith in
      (grind arith, subst (λ (q : SocketRunnerPool). Ensured fresh (true, q)) same s)
  or_closed-started host ip fresh pool (false, p) s h = ground arith

  start_at-started :
      (trials : ℕ → ℕ → Trial) (external : Bool) (pool_size max_in_flight : ℕ) (host ip : IpAddr)
      (port : ℕ) (pool : SocketRunnerPool)
      → start_at trials external pool_size max_in_flight (endpoint host port) ≡ started ip pool
      → (host ≡ ip)
        × (max_port port pool_size ≤ 65535)
        × Ensured (new_of external pool_size max_in_flight port) (true, pool)
  start_at-started trials external pool_size max_in_flight host ip port pool h =
      elim (Bool-cases (ltb 65535 (max_port port pool_size))) [
        | inl e ↦ ground arith
        | inr e ↦
            (let fresh = new_of external pool_size max_in_flight port in
              let r =
                or_closed-started host ip fresh pool (ensure_started trials fresh)
                  (ensure_started-Ensured trials fresh refl) (ground arith) in
              (r.0, ground arith, r.1))
      ]

  parsed-started :
      (trials : ℕ → ℕ → Trial) (external : Bool) (pool_size max_in_flight : ℕ) (p : Parsed IpAddr)
      (ip : IpAddr) (pool : SocketRunnerPool)
      → start_at trials external pool_size max_in_flight p ≡ started ip pool
      → (port : ℕ) × (p ≡ endpoint ip port)
        × (max_port port pool_size ≤ 65535)
        × Ensured (new_of external pool_size max_in_flight port) (true, pool)
  parsed-started trials external pool_size max_in_flight (refused e) ip pool h = ground arith
  parsed-started trials external pool_size max_in_flight (endpoint host port) ip pool h =
      let r = start_at-started trials external pool_size max_in_flight host ip port pool h in
      (port, ap (λ (x : IpAddr). endpoint x port) r.0, r.1, r.2)

module _ (net : Network) where
  open net use {IpAddr, localhost, is_loopback, trim}

  -- The checks, and the processes of a pool that has been started.
  abbrev pub Checked : String → List String → ℕ → ℕ → IpAddr → SocketRunnerPool → Type 0
  Checked raw allowed_hosts pool_size max_in_flight ip pool =
      (port : ℕ) × Allows net (split_endpoint (trim raw)) allowed_hosts ip port
      × (1 ≤ pool_size)
      × (1 ≤ max_in_flight)
      × (max_in_flight ≤ 64)
      × (port + (pool_size - 1) ≤ 65535)
      × (length pool.processes ≡ pool_size)
      × Ordered max_in_flight port pool.processes

  limited-Checked :
      (trials : ℕ → ℕ → Trial) (external : Bool) (pool_size max_in_flight : ℕ) (raw : String)
      (allowed : List String) (ip : IpAddr) (pool : SocketRunnerPool)
      → is_loopback localhost ≡ true
      → 1 ≤ pool_size
      → pool_size ≤ 4294901760
      → (1 ≤ max_in_flight) × (max_in_flight ≤ 64)
      → start_at trials external pool_size max_in_flight
          (parse_tcp_socket_with_allowed_hosts net raw allowed)
        ≡ started ip pool
      → Checked raw allowed pool_size max_in_flight ip pool
  limited-Checked trials external pool_size max_in_flight raw allowed ip pool l one small m h =
      let (port, e, fits, (counted, o)) =
        parsed-started trials external pool_size max_in_flight
          (parse_tcp_socket_with_allowed_hosts net raw allowed) ip pool h in
      let allows = parse_tcp_socket_with_allowed_hosts-Allows net raw allowed ip port l e in
      let (host, port_str, at, parsed, positive, bounded, accepted) = allows in
      (
        port,
        allows,
        one,
        m.0,
        m.1,
        max_port-fits port pool_size bounded one small fits,
        counted,
        subst (λ (n : ℕ). Ordered max_in_flight n pool.processes) (omega arith) o,
      )

  -- Whichever processes start: a pool of at most 2 ^ 32 - 2 ^ 16 processes that has been made from
  -- an endpoint has passed the checks, and all its processes have been started, each with all its
  -- permits and on a port of its own from the endpoint's on, if the address of localhost is a
  -- loopback address. The endpoint is as the parser allows, there are from 1 to 64 permits, at least
  -- one process, and a port for each at the end of the range at the latest.
  pub new_pool-Checked :
      (trials : ℕ → ℕ → Trial) (cmd : List String) (pool_size max_in_flight : ℕ) (raw : String)
      (allowed_hosts : Option (List String)) (ip : IpAddr) (pool : SocketRunnerPool)
      → is_loopback localhost ≡ true
      → pool_size ≤ 4294901760
      → new_pool net trials cmd pool_size max_in_flight (some raw) allowed_hosts ≡ started ip pool
      → Checked raw (unwrap_or allowed_hosts []) pool_size max_in_flight ip pool
  unfolding new_pool
  new_pool-Checked trials cmd pool_size max_in_flight raw allowed_hosts ip pool l small h =
      elim (Option-cases (validate_max_in_flight_limit max_in_flight)) [
        | inl e ↦ ground arith
        | inr (m, e) ↦
            (let limit = limit-le max_in_flight m e in
              let e' = e ∙ ap (λ (n : ℕ). some n) limit.0 in
              limited-Checked trials (is_external_mode cmd) pool_size max_in_flight raw
                (unwrap_or allowed_hosts []) ip pool l (ground arith) small
                (subst (λ (n : ℕ). (1 ≤ n) × (n ≤ 64)) limit.0 (limit.1, limit.2)) (ground arith))
      ]
