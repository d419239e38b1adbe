-- ===== src/Producer/Wait/Bounds.antt =====
-- How long one XREAD of `wait_for_completion` blocks: rrq-rs/producer/src/lib.rs.
use rrq.Prelude.{ℕ, ◌*◌, ◌≤◌, ◌≡◌, ◌⊎◌, arith}
use rrq.Producer.Wait.{wait_ms}

-- XREAD blocks for at least a millisecond, since 0 would block it forever, and for at most an i64.
-- Beyond one millisecond it blocks for no longer than remains until the deadline.
pub wait_ms-bounds :
    (block_interval remaining : ℕ)
    → (1 ≤ wait_ms block_interval remaining)
      × (wait_ms block_interval remaining ≤ 9223372036854775807)
      × ((wait_ms block_interval remaining ≡ 1)
          ⊎ (wait_ms block_interval remaining * 1000000 ≤ remaining))
unfolding wait_ms
wait_ms-bounds block_interval remaining = (ground arith, ground arith, ground arith)
