-- ===== src/Config/Pools.antt =====
-- What a valid configuration ensures: rrq-rs/config/src/config.rs, rrq-rs/orchestrator/src/runner.rs
-- and rrq-rs/orchestrator/src/worker.rs.
use rrq.Prelude.{
  ℕ, ◌+◌, ◌-◌, ◌≤◌, Bool, true, false, some, ◌≡◌, inl, inr, arith, refl, ap, sym, ◌∙◌, Bool-cases,
  Option-cases,
}
use rrq.Prelude.Int.{ℤ, pos, leb_ℤ, ltb_ℤ, checked_add, checked_mul, ◌*ℤ◌, ◌+ℤ◌}
use rrq.Platform.{RrqSettings}
use rrq.Worker.Routing.{
  ClaimTimeout, timeout, job_timeout_not_positive, extension_negative, overflow,
  lock_timeout_not_positive, provisional_claim_lock_timeout_ms,
}
use rrq.Config.{
  RunnerConfig, Verdict, valid, invalid, validate_timeouts, validate_runner, resolve_pool_size,
  validate_max_in_flight_limit, resolve_max_in_flight,
}

-- A runner whose configuration is valid gets a pool of at least one process, whose ports are all
-- ports, in watch mode or not, if the default size is positive.
pub validate_runner-pool :
    (watch external allowed : Bool) (default : ℕ) (c : RunnerConfig) (port : ℕ)
    → 1 ≤ default
    → c.tcp_port ≡ some port
    → validate_runner external allowed default c ≡ valid
    → (n : ℕ) × (resolve_pool_size watch external default c ≡ some n)
      × (1 ≤ n)
      × (port + (n - 1) ≤ 65535)
unfolding validate_runner resolve_pool_size
validate_runner-pool true external allowed default c port one at_port v =
    let v' = rw (at_port, validate_runner) at v in (1, ground arith, omega arith, ground arith)
validate_runner-pool false true allowed default c port one at_port v =
    let v' = rw (at_port, validate_runner) at v in (1, ground arith, omega arith, ground arith)
validate_runner-pool false false allowed default c port one at_port v =
    elim (Option-cases c.pool_size) [
      | inl e ↦
          (let v' = rw (at_port, e, validate_runner) at v in
            rw (e) (default, ground arith, one, ground arith))
      | inr (n, e) ↦
          (let v' = rw (at_port, e, validate_runner) at v in
            rw (e) (n, ground arith, ground arith, ground arith))
    ]

-- The limit of requests in flight that a runner is given is positive and at most 64.
pub resolve_max_in_flight-le :
    (watch : Bool) (c : RunnerConfig) (n : ℕ)
    → resolve_max_in_flight watch c ≡ some n
    → (1 ≤ n) × (n ≤ 64)
unfolding resolve_max_in_flight validate_max_in_flight_limit
resolve_max_in_flight-le watch c n h = (ground arith, ground arith)

sum_positive :
    (a b : ℤ) → leb_ℤ a (pos 0) ≡ false → ltb_ℤ b (pos 0) ≡ false → leb_ℤ (a +ℤ b) (pos 0) ≡ false
unfolding ◌+ℤ◌
sum_positive a b ha hb = ground arith

millis_positive : (a : ℤ) → leb_ℤ a (pos 0) ≡ false → leb_ℤ (a *ℤ pos 1000) (pos 0) ≡ false
unfolding ◌*ℤ◌
millis_positive a h = ground arith

-- Settings whose timeouts are valid give a lock timeout for claims.
pub validate_timeouts-claim :
    {F64 : Type 0} (s : RrqSettings F64)
    → validate_timeouts s ≡ valid
    → (ms : ℤ) × (provisional_claim_lock_timeout_ms s ≡ timeout ms)
unfolding validate_timeouts provisional_claim_lock_timeout_ms checked_add checked_mul
validate_timeouts-claim s h =
    let a = s.default_job_timeout_seconds in
    let b = s.default_lock_timeout_extension_seconds in
    let ms = (a +ℤ b) *ℤ pos 1000 in
    let ha : leb_ℤ a (pos 0) ≡ false = grind arith in
    let hb : ltb_ℤ b (pos 0) ≡ false = grind arith in
    let hm = millis_positive (a +ℤ b) (sum_positive a b ha hb) in (ms, grind arith)

abbrev pub is_valid : Verdict → Bool
is_valid valid = true
is_valid (invalid message) = false

abbrev pub gives_timeout : ClaimTimeout → Bool
gives_timeout (timeout ms) = true
gives_timeout job_timeout_not_positive = false
gives_timeout extension_negative = false
gives_timeout overflow = false
gives_timeout lock_timeout_not_positive = false

is_valid-valid : (v : Verdict) → is_valid v ≡ true → v ≡ valid
is_valid-valid valid h = refl
is_valid-valid (invalid message) h = ground arith

refused_timeout :
    {F64 : Type 0} (s : RrqSettings F64)
    → is_valid (validate_timeouts s) ≡ false
    → gives_timeout (provisional_claim_lock_timeout_ms s) ≡ false
unfolding validate_timeouts provisional_claim_lock_timeout_ms checked_add checked_mul
refused_timeout s h = ground arith

-- The checks of the timeouts in a configuration and the start of a worker agree on any settings: the
-- timeouts are accepted exactly where the worker finds a lock timeout for its claims.
pub validate_timeouts-agrees :
    {F64 : Type 0} (s : RrqSettings F64)
    → is_valid (validate_timeouts s) ≡ gives_timeout (provisional_claim_lock_timeout_ms s)
validate_timeouts-agrees s = elim (Bool-cases (is_valid (validate_timeouts s))) [
  | inl accepted ↦
      (let (ms, e) = validate_timeouts-claim s (is_valid-valid (validate_timeouts s) accepted) in
        accepted ∙ sym (ap gives_timeout e))
  | inr refused ↦ refused ∙ sym (refused_timeout s refused)
]
