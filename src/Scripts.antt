-- ===== src/Scripts.antt =====
-- The Lua scripts of rrq-rs/orchestrator/src/lua: each runs in Redis as one step, so it is a
-- function of the server's data. The keys and arguments stand in the order of KEYS and ARGV.
pub mod Claim
pub mod NoLoss
use rrq.Prelude.{
  ℕ, zero, suc, ◌*◌, String, Bool, true, false, ◌&&◌, not, Option, none, some, List, [], ◌∷◌, ◌++◌,
  ◌==◌, if◌then◌else◌, is_some, leb, length,
}
use rrq.Prelude.Int.{ℤ, pos, negsuc, ◌+ℤ◌, ◌*ℤ◌, ltb_ℤ, leb_ℤ, i64_max}
use rrq.Keys.{Key, job, lock}
use rrq.Redis.{Redis, hset, hdel, hincrby, set, del, zadd, zrem, lpush, xadd, expire, incremented}

module _ (r : Redis) where
  open r use {F64, Db, write, hget, get, zscore, exists, zrangebyscore, parse_int, show_int}

  -- HSET and HMSET with several fields.
  abbrev pub hset_all : Key → List (String × String) → Db → Db
  hset_all k [] db = db
  hset_all k ((f, v) ∷ rest) db = hset_all k rest (write (hset k f v) db)

  -- enqueue.lua
  unfoldable pub enqueue_lua : Key → Key → List (String × String) → F64 → String → Db → ℤ × Db
  enqueue_lua job_key queue_key fields score job_id db =
      if exists db job_key
      then (pos 0, db)
      else (pos 1, write (zadd queue_key job_id score) (hset_all job_key fields db))

  -- The fields of a job that a worker has started.
  abbrev pub started_fields : String → String → List (String × String)
  started_fields start_time worker_id =
      ("status", "ACTIVE") ∷ ("start_time", start_time) ∷ ("worker_id", worker_id) ∷ []

  -- What both claiming scripts do to a queued job whose lock they have just taken.
  unfoldable pub start_claimed : Key → Key → Key → String → String → String → F64 → Db → Db
  start_claimed queue_key job_key active_key worker_id job_id start_time active_score locked =
      write (zadd active_key job_id active_score) (
        hset_all job_key (started_fields start_time worker_id)
          (write (zrem queue_key job_id) locked))

  -- lock_and_start.lua
  unfoldable pub lock_and_start_lua :
      Key → Key → Key → Key → String → ℤ → String → String → F64 → Db → (ℤ × ℤ) × Db
  lock_and_start_lua lock_key queue_key job_key active_key worker_id lock_timeout_ms job_id
        start_time active_score db =
      if exists db lock_key
      then ((pos 0, pos 0), db)
      else (let locked = write (set lock_key worker_id (some lock_timeout_ms)) db in
          if is_some (zscore locked queue_key job_id)
          then (
            (pos 1, pos 1),
            start_claimed queue_key job_key active_key worker_id job_id start_time active_score
                locked,
          )
          else ((pos 0, pos 0), write (del lock_key) locked))

  -- The lock timeout of a candidate in claim_ready.lua.
  unfoldable pub candidate_timeout_ms : Option String → ℤ → ℤ → ℤ
  candidate_timeout_ms none default extension = default
  candidate_timeout_ms (some text) default extension = elim (parse_int text) [
    | none ↦ default
    | some secs ↦
        let candidate = (secs +ℤ extension) *ℤ pos 1000 in
        if ltb_ℤ (pos 0) secs && ltb_ℤ (pos 0) candidate && leb_ℤ candidate i64_max
        then candidate
        else default
  ]

  -- The body of the loop of claim_ready.lua: whether the candidate was claimed.
  unfoldable pub claim_candidate :
      Key → Key → String → ℤ → ℤ → String → F64 → String → Db → Bool × Db
  claim_candidate queue_key active_key worker_id default extension start_time active_score job_id
        db =
      if not (exists db (job job_id))
      then (false, write (zrem queue_key job_id) db)
      else if exists db (lock job_id)
      then (false, db)
      else (let timeout =
            candidate_timeout_ms (hget db (job job_id) "job_timeout_seconds") default extension in
          let locked = write (set (lock job_id) worker_id (some timeout)) db in
          if is_some (zscore locked queue_key job_id)
          then (
            true,
            start_claimed queue_key (job job_id) active_key worker_id job_id start_time active_score
                locked,
          )
          else (false, write (del (lock job_id)) locked))

  unfoldable pub claim_loop :
      Key
      → Key
      → String
      → ℕ
      → ℤ
      → ℤ
      → String
      → F64
      → List String
      → List String
      → Db
      → List String × Db
  claim_loop queue_key active_key worker_id max_claims default extension start_time active_score []
        claimed db =
      (claimed, db)
  claim_loop queue_key active_key worker_id max_claims default extension start_time active_score
        (job_id ∷ rest) claimed db =
      let (took, db') =
        claim_candidate queue_key active_key worker_id default extension start_time active_score
          job_id db in
      let next =
        claim_loop queue_key active_key worker_id max_claims default extension start_time
          active_score rest (if took then claimed ++ job_id ∷ [] else claimed) db' in
      if leb max_claims (length claimed) then (claimed, db) else next

  -- claim_ready.lua
  unfoldable pub claim_ready_lua :
      Key → Key → String → ℤ → ℕ → ℤ → ℤ → String → F64 → Db → List String × Db
  claim_ready_lua queue_key active_key worker_id now_ms zero default extension start_time
        active_score db =
      ([], db)
  claim_ready_lua queue_key active_key worker_id now_ms (suc n) default extension start_time
        active_score db =
      if leb_ℤ default (pos 0)
      then ([], db)
      else claim_loop queue_key active_key worker_id (suc n) default extension start_time
          active_score (zrangebyscore db queue_key now_ms (suc n * 4)) [] db

  -- Whether a lock's value is the worker's name.
  abbrev pub is_owner : Option String → String → Bool
  is_owner none worker_id = false
  is_owner (some owner) worker_id = owner == worker_id

  -- refresh_lock.lua
  unfoldable pub refresh_lock_lua : Key → String → ℤ → Db → ℤ × Db
  refresh_lock_lua lock_key worker_id lock_timeout_ms db =
      if is_owner (get db lock_key) worker_id
      then (pos 1, write (expire lock_key lock_timeout_ms) db)
      else (pos 0, db)

  -- release_lock_if_owner.lua
  unfoldable pub release_lock_if_owner_lua : Key → String → Db → ℤ × Db
  release_lock_if_owner_lua lock_key worker_id db =
      if is_owner (get db lock_key) worker_id then (pos 1, write (del lock_key) db) else (pos 0, db)

  -- HINCRBY current_retries 1: the new count, or `none` for its error reply.
  abbrev pub next_retries : Key → Db → Option ℤ
  next_retries job_key db = incremented parse_int (hget db job_key "current_retries") (pos 1)

  -- retry.lua; where HINCRBY fails, the script stops with its error.
  unfoldable pub retry_lua : Key → Key → String → F64 → String → String → Db → Option ℤ × Db
  retry_lua job_key queue_key job_id retry_at_score error_message status db =
      elim (next_retries job_key db) [
        | none ↦ (none, db)
        | some n ↦ (
          some n,
          write (zadd queue_key job_id retry_at_score) (
              hset_all job_key (("status", status) ∷ ("last_error", error_message) ∷ [])
                (write (hincrby job_key "current_retries" (pos 1)) db)),
        )
      ]

  -- The event that a move to the DLQ records.
  abbrev pub failed_event : String → List (String × String)
  failed_event job_id = ("event", "failed") ∷ ("job_id", job_id) ∷ ("status", "FAILED") ∷ []

  abbrev del_unless_empty : Option Key → Db → Db
  del_unless_empty none db = db
  del_unless_empty (some k) db = write (del k) db

  -- move_to_dlq.lua; the empty text for the unique lock's key is `none`. EXPIRE counts seconds.
  unfoldable pub move_to_dlq_lua :
      Key → Key → Key → Option Key → String → String → String → ℤ → Db → ℤ × Db
  move_to_dlq_lua job_key events_key dlq_key unique_lock_key job_id error_message completion_time
        dlq_ttl db =
      elim (next_retries job_key db) [
        | none ↦ (negsuc 0, db)
        | some n ↦
            (let listed = write (lpush dlq_key job_id) (
                write (xadd events_key (failed_event job_id)) (
                  hset_all job_key
                    (("status", "FAILED")
                      ∷ ("last_error", error_message)
                      ∷ ("completion_time", completion_time)
                      ∷ [])
                    (write (hincrby job_key "current_retries" (pos 1)) db))) in
              let expiring =
                if ltb_ℤ (pos 0) dlq_ttl
                then write (expire events_key (dlq_ttl *ℤ pos 1000))
                    (write (expire job_key (dlq_ttl *ℤ pos 1000)) listed)
                else listed in
              (n, del_unless_empty unique_lock_key expiring))
      ]

  abbrev zrem_unless_empty : Option Key → String → Db → Db
  zrem_unless_empty none m db = db
  zrem_unless_empty (some k) m db = write (zrem k m) db

  -- The owner-checked release of the lock in requeue_job.lua.
  abbrev release_owned : Key → String → Db → Db
  release_owned lock_key owner db =
      if not (owner == "") && is_owner (get db lock_key) owner then write (del lock_key) db else db

  abbrev pub hset_unless_empty : Key → String → String → Db → Db
  hset_unless_empty k f v db = if v == "" then db else write (hset k f v) db

  -- The job's hash once requeue_job.lua has looked at its status.
  unfoldable pub demoted : Key → String → Db → Db
  demoted job_key requeue_message db =
      if is_owner (hget db job_key "status") "ACTIVE"
      then write (hdel job_key "worker_id") (
          write (hdel job_key "start_time")
            (hset_all job_key (("status", "PENDING") ∷ ("last_error", requeue_message) ∷ []) db))
      else hset_unless_empty job_key "last_error" requeue_message db

  -- requeue_job.lua
  unfoldable pub requeue_job_lua :
      Key → Key → Option Key → Key → String → F64 → String → String → String → Db → ℤ × Db
  unfolding demoted
  requeue_job_lua job_key queue_key active_key lock_key job_id score requeue_message releasing_owner
        next_scheduled db =
      if not (exists db job_key)
      then (pos 0, db)
      else (let seen = demoted job_key requeue_message db in
          if is_some (zscore seen queue_key job_id)
          then (
            pos 2,
            release_owned lock_key releasing_owner (zrem_unless_empty active_key job_id seen),
          )
          else (
            pos 1,
            release_owned lock_key releasing_owner (
                hset_unless_empty job_key "next_scheduled_run_time" next_scheduled
                  (zrem_unless_empty active_key job_id (write (zadd queue_key job_id score) seen))),
          ))
