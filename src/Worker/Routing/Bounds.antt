-- ===== src/Worker/Routing/Bounds.antt =====
-- Bounds on what rrq-rs/orchestrator/src/worker.rs computes: the claim's lock timeout and the delay
-- of a retry.
use rrq.Prelude.{◌≤◌, ◌≡◌, arith}
use rrq.Prelude.Int.{ℤ, pos, ◌+ℤ◌, ◌*ℤ◌, ◌≤ℤ◌, ◌<ℤ◌, checked_add, checked_mul, i64_max}
use rrq.Float.{Float}
use rrq.Platform.{RrqSettings}
use rrq.Worker.Routing.{
  timeout, provisional_claim_lock_timeout_ms, backoff_exponent, calculate_backoff_seconds,
}

module _ {F64 : Type 0} (s : RrqSettings F64) where
  -- A claim's lock timeout, where there is one, is the job timeout with the extension in
  -- milliseconds: positive, and an i64.
  pub provisional_timeout-bounds :
      (ms : ℤ)
      → provisional_claim_lock_timeout_ms s ≡ timeout ms
      → (ms
          ≡ (s.default_job_timeout_seconds +ℤ s.default_lock_timeout_extension_seconds) *ℤ pos 1000)
        × (pos 0 <ℤ ms)
        × (ms ≤ℤ i64_max)
        × (pos 0 <ℤ s.default_job_timeout_seconds)
  unfolding provisional_claim_lock_timeout_ms checked_add checked_mul
  provisional_timeout-bounds ms h = (grind arith, grind arith, grind arith, grind arith)

module _ (f : Float) (s : RrqSettings f.F64) where
  -- The exponent of the backoff is at most 30 and the delay at most the configured maximum,
  -- whatever the attempt, also where its conversion to 32 bits wraps around.
  pub backoff-bounds :
      (attempt : ℤ)
      → (backoff_exponent attempt ≤ 30)
        × f.le (calculate_backoff_seconds f s attempt) s.max_retry_delay_seconds
  unfolding backoff_exponent calculate_backoff_seconds
  backoff-bounds attempt = (omega arith, f.min-le _ _)
