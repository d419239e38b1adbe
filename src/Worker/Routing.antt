-- ===== src/Worker/Routing.antt =====
-- The pure helpers of rrq-rs/orchestrator/src/worker.rs: `provisional_claim_lock_timeout_ms`,
-- `resolve_routed_runner`, `split_runner_name`, `calculate_backoff_seconds`,
-- `orphan_requeue_post_action`; and `normalize_queue_name` on the routes.
pub mod Bounds
use Prim.Native.String.{len, slice}
use Prim.Native.Nat.{min}
use text.Mathlib.Text.{find?}
use rrq.Prelude.Texts.{strip_prefix}
use rrq.Prelude.{
  ℕ, ◌+◌, ◌-◌, ◌%◌, ◌^◌, ◌≤◌, String, Bool, true, false, Option, none, some, ◌≡◌, ◌==◌, ◌⊎◌, inl,
  inr, if◌then◌else◌, or_else, nat_eq, ◌||◌, refl,
}
use rrq.Prelude.Int.{
  ℤ, pos, negsuc, ◌+ℤ◌, ◌*ℤ◌, ◌≤ℤ◌, ltb_ℤ, leb_ℤ, checked_add, checked_mul, i64_max, neg_part,
  pos_part,
}
use rrq.Float.{Float}
use rrq.Keys.{queue_key_prefix, normalize_queue_name}
use rrq.Job.{Fields, field, and_then}
use rrq.Platform.{RrqSettings}

pub data ClaimTimeout : Type 0 where
  timeout : ℤ → ClaimTimeout
  job_timeout_not_positive extension_negative overflow lock_timeout_not_positive : ClaimTimeout

abbrev checked : Option ℤ → ClaimTimeout
checked none = overflow
checked (some ms) = if leb_ℤ ms (pos 0) then lock_timeout_not_positive else timeout ms

unfoldable pub provisional_claim_lock_timeout_ms : {F64 : Type 0} → RrqSettings F64 → ClaimTimeout
provisional_claim_lock_timeout_ms s =
    if leb_ℤ s.default_job_timeout_seconds (pos 0)
    then job_timeout_not_positive
    else if ltb_ℤ s.default_lock_timeout_extension_seconds (pos 0)
    then extension_negative
    else checked (
        and_then
          (checked_add s.default_job_timeout_seconds s.default_lock_timeout_extension_seconds)
          (λ sum. checked_mul sum (pos 1000)))

unfoldable pub resolve_routed_runner : Fields → String → Option String
resolve_routed_runner runner_routes queue_name =
    let normalized = normalize_queue_name queue_name in
    or_else (field runner_routes normalized) (
      or_else (field runner_routes queue_name)
        (and_then (strip_prefix normalized queue_key_prefix) (field runner_routes)))

abbrev split_at : String → Option ℕ → Option String × String
split_at name none = (none, name)
split_at name (some i) =
    let prefix = slice name 0 i in
    let handler = slice name (i + 1) (len name) in
    if handler == ""
    then (some prefix, "")
    else if prefix == ""
    then (none, handler)
    else (some prefix, handler)

-- The runner and the handler of "runner#handler".
unfoldable pub split_runner_name : String → Option String × String
split_runner_name function_name = split_at function_name (find? function_name "#")

-- `retry_attempt as u32` keeps the low 32 bits.
abbrev pub as_u32 : ℤ → ℕ
as_u32 (pos n) = n % 2 ^ 32
as_u32 (negsuc n) = (2 ^ 32 - 1) - n % 2 ^ 32

unfoldable pub backoff_exponent : ℤ → ℕ
backoff_exponent retry_attempt =
    let attempt = as_u32 (if leb_ℤ retry_attempt (pos 0) then pos 1 else retry_attempt) in
    min (attempt - 1) 30

unfoldable pub calculate_backoff_seconds : (f : Float) → RrqSettings f.F64 → ℤ → f.F64
calculate_backoff_seconds f s retry_attempt =
    f.min (f.mul s.base_retry_delay_seconds (f.of_nat (2 ^ backoff_exponent retry_attempt)))
      s.max_retry_delay_seconds

pub data OrphanRequeuePostAction : Type 0 where
  cleanup_only cleanup_and_count preserve_active : OrphanRequeuePostAction

unfoldable pub orphan_requeue_post_action : ℤ → OrphanRequeuePostAction
orphan_requeue_post_action (pos n) =
    if nat_eq n 0
    then cleanup_only
    else if nat_eq n 1 || nat_eq n 2
    then cleanup_and_count
    else preserve_active
orphan_requeue_post_action (negsuc n) = preserve_active
