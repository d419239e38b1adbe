-- ===== src/Worker/Recover.antt =====
-- `recover_orphaned_jobs` of rrq-rs/orchestrator/src/worker.rs and the methods of
-- rrq-rs/orchestrator/src/store.rs that only it calls: the jobs in the active sets of workers whose
-- health key is gone are put back.
pub mod Read
pub mod Safe
pub mod Named
pub mod Whole
pub mod Back
use text.Mathlib.Text.{starts_with}
use rrq.Prelude.{
  ℕ, zero, suc, String, Bool, true, false, Option, none, some, List, [], ◌∷◌, ◌==◌, leb, nat_eq,
  if◌then◌else◌, is_some, unwrap_or,
}
use Prim.Native.String
use rrq.Prelude.Int.{ℤ, pos, ltb_ℤ, leb_ℤ, checked_add, checked_mul}
use rrq.Keys.{Key, active_jobs_prefix, health, normalize_queue_name}
use rrq.Redis.{Redis}
use rrq.Redis.Calls.{Io, Result, ok, err, invalid, call, pure, fail, attempt, ◌>>=◌, ◌>>◌}
use rrq.Job.{Job, and_then}
use rrq.Platform.{Platform, RrqSettings}
use rrq.Store.{
  get_job_definition, get_job_lock_owner, try_lock_job, is_job_queued, mark_job_pending,
  remove_active_job, release_job_lock_if_owner, atomic_requeue_job, get_active_job_ids,
}
use rrq.Worker.Release.{is_queueable, is_active}
use rrq.Worker.Routing.{
  OrphanRequeuePostAction, cleanup_only, cleanup_and_count, preserve_active,
  orphan_requeue_post_action,
}

-- SCAN MATCH rrq:active:jobs:* and TTL of Redis, and `trim_start_matches` of the standard library.
pub record Scanning (r : Redis) : Type 0 where
  pub scan_active : r.Db → ℕ → ℕ × List String
  pub ttl : r.Db → Key → ℤ
  pub trim_start_matches : String → String → String

-- How the recovery goes on after a job: it was told to stop, it has reached its limit, or so many
-- jobs were looked at and so many recovered.
pub data Progress : Type 0 where
  stopped : Progress
  limited : Progress
  going : ℕ → ℕ → Progress

module _ (p : Platform) (settings : RrqSettings p.redis.floats.F64) where
  open p use {redis, codec}
  open redis use {Db, get}
  open codec use {Time}

  -- The lock that the recovery itself takes.
  abbrev pub orphan_owner : String → String
  orphan_owner worker_id = String.◌++◌ "orphan-recovery-" worker_id

  abbrev pub lock_timeout : Job codec → Option ℤ
  lock_timeout j =
      and_then
        (checked_add (unwrap_or j.job_timeout_seconds settings.default_job_timeout_seconds)
          settings.default_lock_timeout_extension_seconds)
        (λ sum. checked_mul sum (pos 1000))

  -- The job leaves the dead worker's set, and the recovery's lock is given back.
  abbrev pub clean_up : String → String → String → Io redis Unit
  clean_up worker_id job_id locked = do
    attempt (remove_active_job p worker_id job_id)
    attempt (release_job_lock_if_owner p locked (orphan_owner worker_id))
    pure tt

  -- What follows the script, by its result.
  abbrev pub after_requeue : Job codec → String → OrphanRequeuePostAction → Io redis Bool
  after_requeue j worker_id preserve_active = do
    attempt (release_job_lock_if_owner p j.id (orphan_owner worker_id))
    pure false
  after_requeue j worker_id cleanup_only = do clean_up worker_id j.id j.id; pure false
  after_requeue j worker_id cleanup_and_count = do clean_up worker_id j.id j.id; pure true

  abbrev pub requeue_result : Job codec → String → Result {0} ℤ → Io redis Bool
  requeue_result j worker_id (err e) = after_requeue j worker_id preserve_active
  requeue_result j worker_id (ok n) = after_requeue j worker_id (orphan_requeue_post_action n)

  abbrev pub recover_message : Bool → String
  recover_message true = "Recovered after lock expiry or worker crash."
  recover_message false = ""

  -- A job that is in no queue.
  unfoldable pub recover_lost : Job codec → String → String → Time → Io redis Bool
  recover_lost j queue_name worker_id now =
      let requeue_time = unwrap_or j.next_scheduled_run_time now in
      if is_queueable j.status
      then (do
        result ← attempt (
            atomic_requeue_job p j.id queue_name (p.millis requeue_time)
              (recover_message (is_active j.status)) (orphan_owner worker_id) worker_id
              (codec.to_rfc3339 requeue_time))
        requeue_result j worker_id result)
      else (do clean_up worker_id j.id j.id; pure false)

  abbrev pub mark_if_active : Job codec → String → Io redis Unit
  mark_if_active j job_id =
      if is_active j.status then (do attempt (mark_job_pending p job_id none); pure tt) else pure tt

  -- Whether the job is in its queue is known.
  abbrev pub known_queued : Job codec → String → String → String → Time → Bool → Io redis Bool
  known_queued j queue_name worker_id job_id now queued =
      if queued
      then (do mark_if_active j job_id; clean_up worker_id job_id j.id; pure false)
      else recover_lost j queue_name worker_id now

  -- The recovery has the lock.
  unfoldable pub recover_locked : Job codec → String → String → String → Time → Io redis Bool
  recover_locked j queue_name worker_id job_id now = do
    queued ← is_job_queued p queue_name job_id
    known_queued j queue_name worker_id job_id now queued

  abbrev pub with_timeout : Option ℤ → (ℤ → Io redis Bool) → Io redis Bool
  with_timeout none rest = fail (invalid "lock_timeout_ms overflow")
  with_timeout (some ms) rest = if leb_ℤ ms (pos 0) then pure false else rest ms

  abbrev pub recover_found : Option (Job codec) → String → String → Time → Io redis Bool
  recover_found none worker_id job_id now = do
    attempt (remove_active_job p worker_id job_id)
    pure false
  recover_found (some j) worker_id job_id now =
      let queue_name = normalize_queue_name (unwrap_or j.queue_name settings.default_queue_name) in
      with_timeout (lock_timeout j) (λ lock_timeout_ms. do
        locked ← try_lock_job p j.id (orphan_owner worker_id) lock_timeout_ms
        if locked then recover_locked j queue_name worker_id job_id now else pure false)

  -- The body of the loop over a worker's jobs: whether the job counts as recovered.
  unfoldable pub recover_job : String → String → Time → Io redis Bool
  recover_job worker_id job_id now = do
    owner ← get_job_lock_owner p job_id
    if is_some owner then pure false else (do
      job_opt ← get_job_definition p job_id settings.default_max_retries
      recover_found job_opt worker_id job_id now)

  module _ (s : Scanning redis) (shutdown : ℕ → Bool) (now : ℕ → Time) where
    -- The second part of what `get_worker_health` returns.
    unfoldable pub health_ttl : String → Io redis (Option ℤ)
    health_ttl worker_id = call (λ db. (
      elim (get db (health worker_id)) [
        | none ↦ none
        | some payload ↦
            (let t = s.ttl db (health worker_id) in if ltb_ℤ t (pos 0) then none else some t)
      ],
      db,
    ))

    abbrev pub is_alive : Option ℤ → Bool
    is_alive none = false
    is_alive (some t) = ltb_ℤ (pos 0) t

    unfoldable pub recover_jobs : String → List String → ℕ → ℕ → Io redis Progress
    recover_jobs worker_id [] looked recovered = pure (going looked recovered)
    recover_jobs worker_id (job_id ∷ ids) looked recovered =
        let after_count = recover_jobs worker_id ids (suc looked) (suc recovered) in
        let after = recover_jobs worker_id ids (suc looked) recovered in
        if shutdown looked then pure stopped else (do
          counted ← recover_job worker_id job_id (now looked)
          if counted
              then (if leb 100 (suc recovered) then pure limited else after_count)
              else after)

    abbrev pub recover_worker : String → ℕ → ℕ → Io redis Progress
    recover_worker worker_id looked recovered =
        if worker_id == "" then pure (going looked recovered) else (do
          ttl ← health_ttl worker_id
          if is_alive ttl then pure (going looked recovered) else (do
            job_ids ← get_active_job_ids p worker_id
            recover_jobs worker_id job_ids looked recovered))

    abbrev pub go_on : Progress → (ℕ → ℕ → Io redis Progress) → Io redis Progress
    go_on stopped rest = pure stopped
    go_on limited rest = pure limited
    go_on (going looked recovered) rest = rest looked recovered

    unfoldable pub recover_keys : List String → ℕ → ℕ → Io redis Progress
    recover_keys [] looked recovered = pure (going looked recovered)
    recover_keys (key ∷ keys) looked recovered = do
      progress ←
          (if starts_with key active_jobs_prefix
            then recover_worker (s.trim_start_matches key active_jobs_prefix) looked recovered
            else pure (going looked recovered))
      go_on progress (recover_keys keys)

    -- One page of SCAN.
    abbrev pub scan_active_job_keys : ℕ → Io redis (ℕ × List String)
    scan_active_job_keys cursor = call (λ db. (s.scan_active db cursor, db))

    -- The pages from a cursor on; the fuel is their number.
    unfoldable pub recover_orphaned_jobs : ℕ → ℕ → ℕ → ℕ → Io redis Progress
    recover_orphaned_jobs zero cursor looked recovered = pure (going looked recovered)
    recover_orphaned_jobs (suc fuel) cursor looked recovered = do
      page ← scan_active_job_keys cursor
      progress ← recover_keys page.1 looked recovered
      go_on progress (λ l n.
          let rest = recover_orphaned_jobs fuel page.0 l n in
          if nat_eq page.0 0 then pure (going l n) else rest)
