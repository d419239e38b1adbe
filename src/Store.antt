-- ===== src/Store.antt =====
-- `JobStore` of rrq-rs/orchestrator/src/store.rs: one call of Redis each, except where an argument
-- is refused before it.
use rrq.Prelude.{
  ℕ, zero, suc, String, Bool, true, false, Option, none, some, List, [], ◌∷◌, if◌then◌else◌,
  is_some, nat_eq, map,
}
use rrq.Prelude.Int.{ℤ, pos, negsuc, ltb_ℤ, leb_ℤ, ◌*ℤ◌}
use rrq.Keys.{
  Key, job, active, lock, unique, events, format_queue_key, format_dlq_key, unique_lock_key,
}
use rrq.Redis.{hset, hdel, set, del, zadd, zrem, lpush, xadd, expire, persist}
use rrq.Redis.Calls.{Io, invalid, redis_error, call, pure, fail, ◌>>=◌}
use rrq.Job.{Job, JobStatus, as_str, Fields, build_job_mapping, parse_job_map}
use rrq.Platform.{Platform}
use rrq.Scripts
use rrq.Scripts.{hset_all, failed_event}

module _ (p : Platform) where
  open p use {redis, codec}
  open redis use {F64, Db, write, hget, get, zscore, exists, pttl, zrange}
  open codec use {Time, Json, to_rfc3339, json_text}

  -- A write whose reply the program does not read.
  abbrev send : (Db → Db) → Io redis Unit
  send f = call (λ db. (tt, f db))

  abbrev ask : {A : Type 0} → (Db → A) → Io redis A
  ask f = call (λ db. (f db, db))

  -- A count of 1 or 0.
  abbrev pub is_one : ℤ → Bool
  is_one (pos n) = nat_eq n 1
  is_one (negsuc n) = false

  abbrev pub nonzero : ℤ → Bool
  nonzero (pos zero) = false
  nonzero _ = true

  unfoldable pub save_job_definition : Job codec → Io redis Unit
  save_job_definition j = send (hset_all redis (job j.id) (build_job_mapping codec j))

  unfoldable pub atomic_enqueue_job : Job codec → String → F64 → Io redis Bool
  atomic_enqueue_job j queue_name score_ms = do
    created ← call (
        Scripts.enqueue_lua redis (job j.id) (format_queue_key queue_name)
          (build_job_mapping codec j) score_ms j.id)
    pure (is_one created)

  -- `Err` where the hash is there and is no job.
  abbrev pub definition : String → ℤ → Db → Option (Option (Job codec))
  definition job_id default_max_retries db =
      if exists db (job job_id)
      then elim (parse_job_map codec (hget db (job job_id)) job_id default_max_retries) [
        | none ↦ none
        | some j ↦ some (some j)
      ]
      else some none

  abbrev pub or_invalid : {A : Type 0} → Option A → Io redis A
  or_invalid none = fail (invalid "invalid job")
  or_invalid (some a) = pure a

  unfoldable pub get_job_definition : String → ℤ → Io redis (Option (Job codec))
  get_job_definition job_id default_max_retries = do
    read ← ask (definition job_id default_max_retries)
    or_invalid read

  unfoldable pub add_job_to_queue : String → String → F64 → Io redis Unit
  add_job_to_queue queue_name job_id score_ms =
      send (write (zadd (format_queue_key queue_name) job_id score_ms))

  unfoldable pub remove_job_from_queue : String → String → Io redis Unit
  remove_job_from_queue queue_name job_id = send (write (zrem (format_queue_key queue_name) job_id))

  -- `.ok()` of a definition: a hash that is no job is `none` too.
  abbrev parsed : ℤ → Db → String → Option (Job codec)
  parsed default_max_retries db job_id = elim (definition job_id default_max_retries db) [
    | none ↦ none
    | some d ↦ d
  ]

  -- One pipeline of HGETALL, with an entry for every id.
  unfoldable pub get_job_definitions : List String → ℤ → Io redis (List (Option (Job codec)))
  unfolding parsed
  get_job_definitions job_ids default_max_retries =
      ask (λ db. map (parsed default_max_retries db) job_ids)

  -- The result tells whether the hash is there, and gives its fields.
  unfoldable pub get_job_data_map : String → Io redis (Option (String → Option String))
  get_job_data_map job_id =
      ask (λ db. if exists db (job job_id) then some (hget db (job job_id)) else none)

  unfoldable pub atomic_lock_and_start_job :
      String → String → String → ℤ → Time → Io redis (Bool × ℤ)
  atomic_lock_and_start_job job_id queue_name worker_id lock_timeout_ms start_time = do
    result ← call (
        Scripts.lock_and_start_lua redis (lock job_id) (format_queue_key queue_name) (job job_id)
          (active worker_id) worker_id lock_timeout_ms job_id (to_rfc3339 start_time)
          (p.seconds start_time))
    pure (nonzero result.0, result.1)

  unfoldable pub atomic_claim_ready_jobs :
      String → String → ℤ → ℤ → ℕ → ℤ → Time → Io redis (List String)
  atomic_claim_ready_jobs queue_name worker_id default extension zero now_ms start_time = pure []
  atomic_claim_ready_jobs queue_name worker_id default extension (suc n) now_ms start_time =
      if leb_ℤ default (pos 0)
      then fail (invalid "lock_timeout_ms must be positive")
      else if ltb_ℤ extension (pos 0)
      then fail (invalid "lock_timeout_extension_seconds must be >= 0")
      else call (
          Scripts.claim_ready_lua redis (format_queue_key queue_name) (active worker_id) worker_id
            now_ms (suc n) default extension (to_rfc3339 start_time) (p.seconds start_time))

  unfoldable pub refresh_job_lock_timeout : String → String → ℤ → Io redis Bool
  refresh_job_lock_timeout job_id worker_id lock_timeout_ms =
      if leb_ℤ lock_timeout_ms (pos 0)
      then fail (invalid "lock_timeout_ms must be positive")
      else (do
        refreshed ← call (Scripts.refresh_lock_lua redis (lock job_id) worker_id lock_timeout_ms)
        pure (nonzero refreshed))

  unfoldable pub release_job_lock : String → Io redis Unit
  release_job_lock job_id = send (write (del (lock job_id)))

  unfoldable pub release_job_lock_if_owner : String → String → Io redis Bool
  release_job_lock_if_owner job_id worker_id = do
    released ← call (Scripts.release_lock_if_owner_lua redis (lock job_id) worker_id)
    pure (nonzero released)

  -- SET NX PX.
  unfoldable pub try_lock_job : String → String → ℤ → Io redis Bool
  try_lock_job job_id worker_id lock_timeout_ms = call (λ db.
      if exists db (lock job_id)
      then (false, db)
      else (true, write (set (lock job_id) worker_id (some lock_timeout_ms)) db))

  unfoldable pub get_job_lock_owner : String → Io redis (Option String)
  get_job_lock_owner job_id = ask (λ db. get db (lock job_id))

  abbrev pub hset_some : Key → String → Option String → Db → Db
  hset_some k f none db = db
  hset_some k f (some v) db = write (hset k f v) db

  -- One MULTI/EXEC.
  unfoldable pub mark_job_pending : String → Option String → Io redis Unit
  mark_job_pending job_id last_error = send (λ db. write (hdel (job job_id) "worker_id") (
      write (hdel (job job_id) "start_time") (
        hset_some (job job_id) "last_error" last_error
          (write (hset (job job_id) "status" "PENDING") db))))

  unfoldable pub update_job_next_scheduled_run_time : String → Time → Io redis Unit
  update_job_next_scheduled_run_time job_id run_time =
      send (write (hset (job job_id) "next_scheduled_run_time" (to_rfc3339 run_time)))

  abbrev pub or_redis_error : Option ℤ → Io redis ℤ
  or_redis_error none = fail redis_error
  or_redis_error (some n) = pure n

  unfoldable pub atomic_retry_job : String → String → F64 → String → JobStatus → Io redis ℤ
  atomic_retry_job job_id queue_name retry_at_score error_message status = do
    count ← call (
        Scripts.retry_lua redis (job job_id) (format_queue_key queue_name) job_id retry_at_score
          error_message (as_str status))
    or_redis_error count

  -- The unique lock is given by the unique key, whose prefix `move_to_dlq` of worker.rs adds.
  unfoldable pub atomic_move_job_to_dlq :
      String → String → String → Time → ℤ → Option String → Io redis ℤ
  atomic_move_job_to_dlq job_id dlq_name error_message completion_time ttl unique_key = call (
      Scripts.move_to_dlq_lua redis (job job_id) (events job_id) (format_dlq_key dlq_name)
        (unique_lock_key unique_key) job_id error_message (to_rfc3339 completion_time) ttl)

  unfoldable pub atomic_requeue_job :
      String → String → F64 → String → String → String → String → Io redis ℤ
  atomic_requeue_job job_id queue_name score message owner active_worker_id next_scheduled = call (
      Scripts.requeue_job_lua redis (job job_id) (format_queue_key queue_name)
        (some (active active_worker_id)) (lock job_id) job_id score message owner next_scheduled)

  -- `move_job_to_dlq`: the seven commands of one MULTI/EXEC. The TTL is a week.
  unfoldable pub move_job_to_dlq : String → String → String → Time → Io redis Unit
  move_job_to_dlq job_id dlq_name error_message completion_time = send (λ db.
      write (expire (events job_id) (pos 604800000)) (
        write (expire (job job_id) (pos 604800000)) (
          write (lpush (format_dlq_key dlq_name) job_id) (
            write (xadd (events job_id) (failed_event redis job_id)) (
              hset_all redis (job job_id)
                (("status", "FAILED")
                  ∷ ("last_error", error_message)
                  ∷ ("completion_time", to_rfc3339 completion_time)
                  ∷ [])
                db)))))

  abbrev pub completed_event : String → Fields
  completed_event job_id =
      ("event", "completed") ∷ ("job_id", job_id) ∷ ("status", "COMPLETED") ∷ []

  -- The TTL of a result: none is set for a negative one, and 0 keeps the hash for good.
  abbrev pub keep_for : String → ℤ → Db → Db
  keep_for job_id ttl db =
      if ltb_ℤ (pos 0) ttl
      then write (expire (events job_id) (ttl *ℤ pos 1000))
          (write (expire (job job_id) (ttl *ℤ pos 1000)) db)
      else if ltb_ℤ ttl (pos 0)
      then db
      else write (persist (events job_id)) (write (persist (job job_id)) db)

  unfoldable pub save_job_result : String → Json → ℤ → Time → Io redis Unit
  save_job_result job_id result ttl completion_time = send (λ db. keep_for job_id ttl (
      write (xadd (events job_id) (completed_event job_id)) (
        hset_all redis (job job_id)
          (("result", json_text result)
            ∷ ("completion_time", to_rfc3339 completion_time)
            ∷ ("status", "COMPLETED")
            ∷ [])
          db)))

  unfoldable pub track_active_job : String → String → Time → Io redis Unit
  track_active_job worker_id job_id start_time =
      send (write (zadd (active worker_id) job_id (p.seconds start_time)))

  unfoldable pub remove_active_job : String → String → Io redis Unit
  remove_active_job worker_id job_id = send (write (zrem (active worker_id) job_id))

  -- SET NX EX.
  unfoldable pub acquire_unique_job_lock : String → String → ℤ → Io redis Bool
  acquire_unique_job_lock unique_key job_id lock_ttl_seconds = call (λ db.
      if exists db (unique unique_key)
      then (false, db)
      else (true, write (set (unique unique_key) job_id (some (lock_ttl_seconds *ℤ pos 1000))) db))

  unfoldable pub release_unique_job_lock : String → Io redis Unit
  release_unique_job_lock unique_key = send (write (del (unique unique_key)))

  unfoldable pub get_active_job_ids : String → Io redis (List String)
  get_active_job_ids worker_id = ask (λ db. zrange db (active worker_id))

  unfoldable pub is_job_queued : String → String → Io redis Bool
  is_job_queued queue_name job_id =
      ask (λ db. is_some (zscore db (format_queue_key queue_name) job_id))
