-- ===== src/Keys.antt =====
-- The names of the Redis keys: rrq-rs/orchestrator/src/constants.rs, rrq-rs/config/src/queue.rs,
-- rrq-rs/config/src/defaults.rs and the key functions of rrq-rs/orchestrator/src/store.rs and
-- rrq-rs/producer/src/lib.rs.
-- A key is a constructor for its prefix with the text behind the prefix, and `render` is the text
-- that the program sends.
use Prim.Native.String.{◌++◌, len, slice}
use text.Mathlib.Text.{starts_with}
use rrq.Prelude.{String, Bool, false, Option, none, some, ◌==◌, if◌then◌else◌}

pub data Key : Type 0 where
  job queue dlq active lock unique events health idempotency rate_limit debounce : String → Key

abbrev pub queue_key_prefix : String
queue_key_prefix = "rrq:queue:"

abbrev pub active_jobs_prefix : String
active_jobs_prefix = "rrq:active:jobs:"

abbrev pub dlq_key_prefix : String
dlq_key_prefix = "rrq:dlq:"

abbrev pub rate_limit_key_prefix : String
rate_limit_key_prefix = "rrq:rate_limit:"

abbrev pub debounce_key_prefix : String
debounce_key_prefix = "rrq:debounce:"

-- The text behind a prefix, or the whole text where the prefix is not there.
abbrev pub bare_name : String → String → String
bare_name prefix name = if starts_with name prefix then slice name (len prefix) (len name) else name

abbrev pub add_prefix : String → String → String
add_prefix prefix name = if starts_with name prefix then name else prefix ++ name

-- queue.rs, and `format_queue_key` of store.rs and of the producer.
unfoldable pub normalize_queue_name : String → String
normalize_queue_name queue_name = add_prefix queue_key_prefix queue_name

unfoldable pub format_queue_key : String → Key
format_queue_key queue_name = queue (bare_name queue_key_prefix queue_name)

unfoldable pub format_dlq_key : String → Key
format_dlq_key dlq_name = dlq (bare_name dlq_key_prefix dlq_name)

unfoldable pub format_rate_limit_key : String → Key
format_rate_limit_key key = rate_limit (bare_name rate_limit_key_prefix key)

unfoldable pub format_debounce_key : String → Key
format_debounce_key key = debounce (bare_name debounce_key_prefix key)

-- Whether two keys are one.
unfoldable pub key_eq : Key → Key → Bool
key_eq (job a) (job b) = a == b
key_eq (queue a) (queue b) = a == b
key_eq (dlq a) (dlq b) = a == b
key_eq (active a) (active b) = a == b
key_eq (lock a) (lock b) = a == b
key_eq (unique a) (unique b) = a == b
key_eq (events a) (events b) = a == b
key_eq (health a) (health b) = a == b
key_eq (idempotency a) (idempotency b) = a == b
key_eq (rate_limit a) (rate_limit b) = a == b
key_eq (debounce a) (debounce b) = a == b
key_eq _ _ = false

pub render : Key → String
render (job s) = "rrq:job:" ++ s
render (queue s) = queue_key_prefix ++ s
render (dlq s) = dlq_key_prefix ++ s
render (active s) = active_jobs_prefix ++ s
render (lock s) = "rrq:lock:job:" ++ s
render (unique s) = "rrq:lock:unique:" ++ s
render (events s) = "rrq:events:job:" ++ s
render (health s) = "rrq:health:worker:" ++ s
render (idempotency s) = "rrq:idempotency:" ++ s
render (rate_limit s) = rate_limit_key_prefix ++ s
render (debounce s) = debounce_key_prefix ++ s

-- The key of a job's unique lock, if it has one.
abbrev pub unique_lock_key : Option String → Option Key
unique_lock_key none = none
unique_lock_key (some k) = some (unique k)
