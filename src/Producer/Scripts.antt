-- ===== src/Producer/Scripts.antt =====
-- The three scripts that rrq-rs/producer/src/lib.rs builds: `build_enqueue_script`,
-- `build_rate_limit_script` and `build_debounce_script`. Each runs in Redis as one step. The KEYS are
-- arguments, and the ARGV that describe the job are a record.
pub mod NoLoss
pub mod Once
pub mod Keeps
pub mod Rescheduled
pub mod Debounce
use rrq.Prelude.{
  String, Bool, true, false, Option, none, some, List, [], ◌∷◌, ◌==◌, if◌then◌else◌, is_some, not,
}
use rrq.Prelude.Int.{ℤ, pos, negsuc, ◌*ℤ◌, ltb_ℤ}
use rrq.Keys.{Key, job, idempotency}
use rrq.Redis.{Redis, hset, hdel, set, del, zadd, expire}
use rrq.Scripts.{hset_all, hset_unless_empty, is_owner}

-- The arguments that describe a job, as texts.
pub record NewJob : Type 0 where
  pub job_id : String
  pub function_name : String
  pub job_params : String
  pub enqueue_time : String
  pub status : String
  pub current_retries : String
  pub next_scheduled_run_time : String
  pub max_retries : String
  pub job_timeout_seconds : String
  pub result_ttl_seconds : String
  pub queue_name : String
  pub result : String
  pub trace_context : String
  pub correlation_context : String

-- The fields of the HSET that creates a job.
abbrev pub new_fields : NewJob → List (String × String)
new_fields j =
    ("id", j.job_id)
    ∷ ("function_name", j.function_name)
    ∷ ("job_params", j.job_params)
    ∷ ("enqueue_time", j.enqueue_time)
    ∷ ("status", j.status)
    ∷ ("current_retries", j.current_retries)
    ∷ ("next_scheduled_run_time", j.next_scheduled_run_time)
    ∷ ("max_retries", j.max_retries)
    ∷ ("job_timeout_seconds", j.job_timeout_seconds)
    ∷ ("result_ttl_seconds", j.result_ttl_seconds)
    ∷ ("queue_name", j.queue_name)
    ∷ ("result", j.result)
    ∷ []

-- The script's key of an idempotency key; without one it is empty.
abbrev pub idempotency_of : Option String → Option Key
idempotency_of none = none
idempotency_of (some k) = some (idempotency k)

module _ (r : Redis) where
  open r use {F64, Db, write, hget, get, exists}

  -- The end of each script: the job's hash and its place in the queue.
  unfoldable pub create_job : Key → Key → NewJob → F64 → Db → Db
  create_job job_key queue_key j score db = write (zadd queue_key j.job_id score) (
      hset_unless_empty r job_key "correlation_context" j.correlation_context (
        hset_unless_empty r job_key "trace_context" j.trace_context
          (hset_all r job_key (new_fields j) db)))

  -- EX where the TTL is positive.
  abbrev pub ttl_of : ℤ → Option ℤ
  ttl_of ttl = if ltb_ℤ (pos 0) ttl then some (ttl *ℤ pos 1000) else none

  -- The job that an idempotency key names, if it is still there.
  abbrev pub existing_job : Option String → Db → Option String
  existing_job none db = none
  existing_job (some id) db = if exists db (job id) then some id else none

  abbrev pub forget_stale : Key → Option String → Db → Db
  forget_stale k none db = db
  forget_stale k (some id) db = write (del k) db

  -- The rest of the script with an idempotency key whose job is not there.
  unfoldable pub claim_key : Key → Key → Key → NewJob → F64 → ℤ → Db → (ℤ × String) × Db
  claim_key job_key queue_key idem_key j score ttl db =
      if exists db job_key
      then ((negsuc 0, j.job_id), db)
      else if exists db idem_key
      then elim (get db idem_key) [
        | some winner ↦ ((pos 0, winner), db)
        | none ↦ ((pos 1, j.job_id), create_job job_key queue_key j score db)
      ]
      else (
        (pos 1, j.job_id),
        create_job job_key queue_key j score (write (set idem_key j.job_id (ttl_of ttl)) db),
      )

  -- The empty idempotency key is `none`.
  unfoldable pub enqueue_script : Key → Key → Option Key → NewJob → F64 → ℤ → Db → (ℤ × String) × Db
  enqueue_script job_key queue_key none j score ttl db =
      if exists db job_key
      then ((negsuc 0, j.job_id), db)
      else ((pos 1, j.job_id), create_job job_key queue_key j score db)
  enqueue_script job_key queue_key (some idem_key) j score ttl db =
      elim (existing_job (get db idem_key) db) [
        | some existing ↦ ((pos 0, existing), db)
        | none ↦
            claim_key job_key queue_key idem_key j score ttl
              (forget_stale idem_key (get db idem_key) db)
      ]

  -- The producer never sends an empty rate limit key.
  unfoldable pub rate_limit_script : Key → Key → Key → NewJob → F64 → ℤ → Db → (ℤ × String) × Db
  rate_limit_script job_key queue_key rate_key j score ttl db =
      if not (ltb_ℤ (pos 0) ttl)
      then ((negsuc 1, j.job_id), db)
      else if exists db rate_key
      then ((pos 2, ""), db)
      else (let limited = write (set rate_key j.job_id (some (ttl *ℤ pos 1000))) db in
          if exists limited job_key
          then ((negsuc 0, j.job_id), write (del rate_key) limited)
          else ((pos 1, j.job_id), create_job job_key queue_key j score limited))

  -- The fields of the HSET that reschedules a debounced job.
  abbrev pub debounced_fields : NewJob → List (String × String)
  debounced_fields j =
      ("function_name", j.function_name)
      ∷ ("job_params", j.job_params)
      ∷ ("next_scheduled_run_time", j.next_scheduled_run_time)
      ∷ ("max_retries", j.max_retries)
      ∷ ("job_timeout_seconds", j.job_timeout_seconds)
      ∷ ("result_ttl_seconds", j.result_ttl_seconds)
      ∷ ("queue_name", j.queue_name)
      ∷ []

  abbrev pub set_or_drop : Key → String → String → Db → Db
  set_or_drop k f v db = if v == "" then write (hdel k f) db else write (hset k f v) db

  abbrev pub expire_if : Key → ℤ → Db → Db
  expire_if k ttl db = if ltb_ℤ (pos 0) ttl then write (expire k (ttl *ℤ pos 1000)) db else db

  unfoldable pub reschedule : Key → Key → String → NewJob → F64 → ℤ → Db → Db
  reschedule queue_key debounce_key existing j score ttl db = expire_if debounce_key ttl (
      write (zadd queue_key existing score) (
        set_or_drop (job existing) "correlation_context" j.correlation_context (
          hset_unless_empty r (job existing) "trace_context" j.trace_context
            (hset_all r (job existing) (debounced_fields j) db))))

  -- The job that a debounce key names, if it still waits.
  abbrev pub pending_job : Option String → Db → Option String
  pending_job none db = none
  pending_job (some id) db =
      if exists db (job id)
      then (if is_owner r (hget db (job id) "status") "PENDING" then some id else none)
      else none

  -- The rest of the script where no waiting job has the key. SET NX has no TTL where it is not
  -- positive, and its answer is then not read.
  unfoldable pub debounce_new : Key → Key → NewJob → F64 → ℤ → Db → (ℤ × String) × Db
  debounce_new queue_key debounce_key j score ttl db =
      if exists db (job j.job_id)
      then ((negsuc 0, j.job_id), db)
      else if exists db debounce_key
      then (if ltb_ℤ (pos 0) ttl
          then elim (get db debounce_key) [
            | some other ↦ ((pos 0, other), db)
            | none ↦ ((pos 2, ""), db)
          ]
          else ((pos 1, j.job_id), create_job (job j.job_id) queue_key j score db))
      else (
        (pos 1, j.job_id),
        create_job (job j.job_id) queue_key j score
            (write (set debounce_key j.job_id (ttl_of ttl)) db),
      )

  unfoldable pub debounce_script : Key → Key → NewJob → F64 → ℤ → Db → (ℤ × String) × Db
  debounce_script queue_key debounce_key j score ttl db =
      elim (pending_job (get db debounce_key) db) [
        | some existing ↦
            ((pos 0, existing), reschedule queue_key debounce_key existing j score ttl db)
        | none ↦
            debounce_new queue_key debounce_key j score ttl
              (forget_stale debounce_key (get db debounce_key) db)
      ]
