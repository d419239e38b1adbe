-- ===== src/Producer/Wait.antt =====
-- `wait_for_completion` of rrq-rs/producer/src/lib.rs: a loop of looks at the job's hash, of reads of
-- the clock and of blocking reads of the job's event stream. What a turn of the loop finds is the
-- environment's choice: the server's data and the fault of the look, the time on the clock, and the
-- reply of XREAD. Times are in nanoseconds, as those of `Instant`.
pub mod Ends
pub mod Bounds
use rrq.Prelude.{
  ℕ, zero, suc, ◌-◌, ◌/◌, String, Bool, true, false, Option, none, some, List, [], ◌∷◌, nat_eq, leb,
  ltb, if◌then◌else◌, unwrap_or, or_else,
}
use rrq.Redis.Calls.{World, Result, ok, err}
use rrq.Job.{and_then}
use rrq.Platform.{Platform}
use rrq.Producer.Enqueue.{
  Environment, ProducerConfig, Status, completed, failed, JobResult, get_job_status,
}

-- What the code reads of a `redis::Value`.
pub record RedisValue : Type 1 where
  pub Value : Type 0
  pub as_array : Value → Option (List Value)
  pub simple_string : Value → Option String
  -- The text of a bulk string, `from_utf8_lossy`.
  pub bulk_string : Value → Option String

abbrev pub last : {A : Type 0} → List A → Option A
last [] = none
last (x ∷ []) = some x
last (x ∷ y ∷ ys) = last (y ∷ ys)

abbrev pub first : {A : Type 0} → List A → Option A
first [] = none
first (x ∷ xs) = some x

abbrev pub second : {A : Type 0} → List A → Option A
second [] = none
second (x ∷ xs) = first xs

module _ (v : RedisValue) where
  open v use {Value, as_array}

  abbrev pub redis_value_to_string : Value → Option String
  redis_value_to_string x = or_else (v.simple_string x) (v.bulk_string x)

  unfoldable pub extract_latest_stream_entry_id : Value → Option String
  extract_latest_stream_entry_id value = and_then (as_array value) (λ streams.
      and_then (and_then (last streams) as_array) (λ stream.
        and_then (and_then (second stream) as_array) (λ entries.
          and_then (and_then (last entries) as_array)
            (λ last_entry. and_then (first last_entry) redis_value_to_string))))

abbrev pub is_terminal : Status → Bool
is_terminal completed = true
is_terminal failed = true
is_terminal s = false

-- `wait_for.as_millis().clamp(1, i64::MAX as u128)`, where a block interval of zero waits for all
-- that remains.
unfoldable pub wait_ms : ℕ → ℕ → ℕ
wait_ms block_interval remaining =
    let wait_for =
      if nat_eq block_interval 0
      then remaining
      else if ltb remaining block_interval
      then remaining
      else block_interval in
    let ms = wait_for / 1000000 in
    if ltb ms 1 then 1 else if ltb 9223372036854775807 ms then 9223372036854775807 else ms

-- What the turns of one wait find. The reply of XREAD is one to the wait and the offset asked for.
pub record Turns (p : Platform) (Value : Type 0) : Type 0 where
  pub world : ℕ → World p.redis
  pub clock : ℕ → ℕ
  pub reply : ℕ → ℕ → String → Result Value

module _ (p : Platform) (env : Environment p) (config : ProducerConfig) (v : RedisValue)
    (turns : Turns p v.Value) (job_id : String) (deadline block_interval : ℕ) where
  open p.codec use {Json}

  abbrev pub look : ℕ → Result (Option (JobResult Json))
  look i = (get_job_status p env config job_id (turns.world i)).0

  -- The answer that ends the wait, if the look has one.
  abbrev pub settled : Result (Option (JobResult Json)) → Option (Result (Option (JobResult Json)))
  settled (err e) = some (err e)
  settled (ok none) = none
  settled (ok (some s)) = if is_terminal s.status then some (ok (some s)) else none

  abbrev pub next_offset : String → v.Value → String
  next_offset offset response = unwrap_or (extract_latest_stream_entry_id v response) offset

  -- The turns from the i-th on; `none` is out of fuel.
  unfoldable pub wait_loop : ℕ → ℕ → String → Option (Result (Option (JobResult Json)))
  wait_loop zero i stream_offset = none
  wait_loop (suc fuel) i stream_offset = elim (settled (look i)) [
    | some answer ↦ some answer
    | none ↦ elim (leb deadline (turns.clock i)) [
      | true ↦ some (ok none)
      | false ↦
          elim (turns.reply i (wait_ms block_interval (deadline - turns.clock i)) stream_offset) [
            | err e ↦ some (err e)
            | ok response ↦ wait_loop fuel (suc i) (next_offset stream_offset response)
          ]
    ]
  ]

  unfoldable pub wait_for_completion : ℕ → Option (Result (Option (JobResult Json)))
  wait_for_completion fuel = wait_loop fuel 0 "$"
