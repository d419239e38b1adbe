-- ===== src/Producer/Enqueue/Bounds.antt =====
-- The TTL of an idempotency key: rrq-rs/producer/src/lib.rs.
use rrq.Prelude.{ℕ, ◌+◌, ◌*◌, ◌≤◌, arith}
use rrq.Prelude.Int.{ℤ, pos, pos_part, ◌≤ℤ◌, ◌<ℤ◌}
use rrq.Producer.Enqueue.{idempotency_ttl}

-- The TTL of an idempotency key is never shorter than the TTL asked for, and a job that is deferred
-- by so many milliseconds runs before its key expires. The deferral plus 999 must be an i64.
pub idempotency_ttl-covers :
    (ttl : ℤ) (deferral_ms : ℕ)
    → deferral_ms + 999 ≤ 9223372036854775807
    → pos 0 <ℤ ttl
    → (ttl ≤ℤ idempotency_ttl ttl (pos deferral_ms))
      × (deferral_ms ≤ 1000 * pos_part (idempotency_ttl ttl (pos deferral_ms)))
unfolding idempotency_ttl
idempotency_ttl-covers ttl deferral_ms small positive = (ground arith, ground arith)
