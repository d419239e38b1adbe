-- ===== src/Worker/Release.antt =====
-- How rrq-rs/orchestrator/src/worker.rs gives back the jobs that it has claimed and does not start:
-- `lock_owned_by_other`, the requeue helpers, `cleanup_claimed_job_state`, `release_claimed_job`,
-- `quarantine_claimed_job_without_definition` and the loops over the claimed jobs. None of these
-- returns an error. The log lines are left out.
pub mod Batch
pub mod Safe
pub mod Ends
pub mod Quarantine
use rrq.Prelude.{
  ℕ, zero, suc, String, Bool, true, false, not, Option, none, some, List, [], ◌∷◌, ◌==◌,
  if◌then◌else◌, unwrap_or, drop,
}
use rrq.Prelude.Int.{ℤ}
use rrq.Redis.Calls.{Io, Result, Error, ok, err, wrongtype_error, pure, attempt, ◌>>=◌, ◌>>◌}
use rrq.Job.{Job, JobStatus, pending, active, completed, failed, retrying, cancelled, and_then}
use rrq.Platform.{Platform, RrqSettings}
use rrq.Store.{
  get_job_lock_owner, mark_job_pending, is_job_queued, add_job_to_queue, remove_active_job,
  release_job_lock_if_owner, release_job_lock, remove_job_from_queue, get_job_data_map,
  move_job_to_dlq, release_unique_job_lock,
}

-- The statuses of a job that is put back into its queue.
abbrev pub is_queueable : JobStatus → Bool
is_queueable active = true
is_queueable pending = true
is_queueable retrying = true
is_queueable _ = false

abbrev pub is_active : JobStatus → Bool
is_active active = true
is_active _ = false

-- Whether the lock has an owner, and it is not the worker.
abbrev pub is_other : Option String → String → Bool
is_other none worker_id = false
is_other (some owner) worker_id = not (owner == worker_id)

abbrev pub is_worker : Option String → String → Bool
is_worker none worker_id = false
is_worker (some name) worker_id = name == worker_id

-- `.filter(|text| !text.is_empty())`.
abbrev pub non_empty : Option String → Option String
non_empty none = none
non_empty (some s) = if s == "" then none else some s

module _ (p : Platform) (settings : RrqSettings p.redis.floats.F64) where
  open p use {redis, codec}
  open redis use {F64, Db}
  open codec use {Time}

  abbrev pub owner_or :
      String → Result (Option String) → Io redis (Option Bool) → Io redis (Option Bool)
  owner_or worker_id (ok owner) rest = pure (some (is_other owner worker_id))
  owner_or worker_id (err e) rest = rest

  abbrev pub owner_attempts : ℕ → String → String → Io redis (Option Bool)
  owner_attempts zero job_id worker_id = pure none
  owner_attempts (suc n) job_id worker_id = do
    owner ← attempt (get_job_lock_owner p job_id)
    owner_or worker_id owner (owner_attempts n job_id worker_id)

  -- `none` where the owner could not be read.
  unfoldable pub lock_owned_by_other : String → String → Io redis (Option Bool)
  lock_owned_by_other job_id worker_id = owner_attempts 2 job_id worker_id

  -- `false` where the action failed.
  abbrev pub when_ok : {A : Type 0} → Result A → (A → Io redis Bool) → Io redis Bool
  when_ok (ok a) f = f a
  when_ok (err e) f = pure false

  abbrev pub add_unless : String → String → Time → Bool → Io redis Bool
  add_unless queue_name job_id now true = pure true
  add_unless queue_name job_id now false = do
    added ← attempt (add_job_to_queue p queue_name job_id (p.millis now))
    when_ok added (λ _. pure true)

  -- What both requeue helpers do at their end.
  unfoldable pub queue_again : String → String → Time → Io redis Bool
  queue_again queue_name job_id now = do
    already_queued ← attempt (is_job_queued p queue_name job_id)
    when_ok already_queued (add_unless queue_name job_id now)

  unfoldable pub requeue_claimed_job_without_definition :
      String → String → Option String → Time → Io redis Bool
  requeue_claimed_job_without_definition queue_name job_id pending_error now = do
    marked ← attempt (mark_job_pending p job_id pending_error)
    when_ok marked (λ _. queue_again queue_name job_id now)

  unfoldable pub requeue_claimed_job_if_needed :
      String → String → Job codec → Option String → Time → Io redis Bool
  requeue_claimed_job_if_needed queue_name job_id j pending_error now =
      if is_queueable j.status
      then (if is_active j.status
          then (do
            marked ← attempt (mark_job_pending p job_id pending_error)
            when_ok marked (λ _. queue_again queue_name job_id now))
          else queue_again queue_name job_id now)
      else pure true

  abbrev pub force_release : String → Result Bool → Io redis Unit
  force_release job_id (err wrongtype_error) = do attempt (release_job_lock p job_id); pure tt
  force_release job_id _ = pure tt

  unfoldable pub cleanup_claimed_job_state : String → String → Io redis Unit
  cleanup_claimed_job_state job_id worker_id = do
    attempt (remove_active_job p worker_id job_id)
    released ← attempt (release_job_lock_if_owner p job_id worker_id)
    force_release job_id released

  -- Unless the requeue failed, the clean-up.
  abbrev pub cleanup_if : String → String → Bool → Io redis Unit
  cleanup_if job_id worker_id true = cleanup_claimed_job_state job_id worker_id
  cleanup_if job_id worker_id false = pure tt

  -- The requeue of a job that names the worker; any other is left as it is.
  abbrev pub requeue_own :
      String → String → Option (Job codec) → Option String → String → Time → Io redis Bool
  requeue_own queue_name job_id none pending_error worker_id now = pure true
  requeue_own queue_name job_id (some j) pending_error worker_id now =
      if is_worker j.worker_id worker_id
      then requeue_claimed_job_if_needed queue_name job_id j pending_error now
      else pure true

  abbrev pub release_known :
      Option Bool
      → String
      → String
      → Option (Job codec)
      → Option String
      → String
      → Time
      → Io redis Unit
  release_known (some true) queue_name job_id j pending_error worker_id now =
      cleanup_claimed_job_state job_id worker_id
  release_known _ queue_name job_id j pending_error worker_id now = do
    done ← requeue_own queue_name job_id j pending_error worker_id now
    cleanup_if job_id worker_id done

  unfoldable pub release_claimed_job :
      String → String → Option (Job codec) → Option String → String → Time → Io redis Unit
  release_claimed_job queue_name job_id j pending_error worker_id now = do
    other ← lock_owned_by_other job_id worker_id
    release_known other queue_name job_id j pending_error worker_id now

  abbrev pub release_unique_key : Option String → Io redis Unit
  release_unique_key none = pure tt
  release_unique_key (some key) = do attempt (release_unique_job_lock p key); pure tt

  -- After the attempt to move the job to the DLQ: whether the clean-up follows.
  abbrev pub after_move : Result (Unit {0}) → String → String → Option String → Time → Io redis Bool
  after_move (ok _) queue_name job_id unique_key now = do release_unique_key unique_key; pure true
  after_move (err e) queue_name job_id unique_key now =
      requeue_claimed_job_without_definition queue_name job_id
        (some "Failed to move malformed claimed job to DLQ. Re-queued.") now

  abbrev pub quarantine_read :
      Result (Option (String → Option String)) → String → String → String → Time → Io redis Bool
  quarantine_read (ok none) queue_name job_id message now = pure true
  quarantine_read (ok (some raw)) queue_name job_id message now = do
    moved ← attempt (
        move_job_to_dlq p job_id (unwrap_or (non_empty (raw "dlq_name")) settings.default_dlq_name)
          message now)
    after_move moved queue_name job_id (non_empty (raw "job_unique_key")) now
  quarantine_read (err e) queue_name job_id message now =
      requeue_claimed_job_without_definition queue_name job_id
        (some "Failed to load malformed claimed job for DLQ move. Re-queued.") now

  abbrev pub quarantine_known :
      Option Bool → String → String → String → String → Time → Io redis Unit
  quarantine_known none queue_name job_id message worker_id now = pure tt
  quarantine_known (some true) queue_name job_id message worker_id now =
      cleanup_claimed_job_state job_id worker_id
  quarantine_known (some false) queue_name job_id message worker_id now = do
    attempt (remove_job_from_queue p queue_name job_id)
    read ← attempt (get_job_data_map p job_id)
    done ← quarantine_read read queue_name job_id message now
    cleanup_if job_id worker_id done

  unfoldable pub quarantine_claimed_job_without_definition :
      String → String → String → String → Time → Io redis Unit
  quarantine_claimed_job_without_definition queue_name job_id message worker_id now = do
    other ← lock_owned_by_other job_id worker_id
    quarantine_known other queue_name job_id message worker_id now

  abbrev pub release_without_known :
      Option Bool → String → String → Option String → String → Time → Io redis Unit
  release_without_known none queue_name job_id pending_error worker_id now = pure tt
  release_without_known (some true) queue_name job_id pending_error worker_id now =
      cleanup_claimed_job_state job_id worker_id
  release_without_known (some false) queue_name job_id pending_error worker_id now = do
    done ← requeue_claimed_job_without_definition queue_name job_id pending_error now
    cleanup_if job_id worker_id done

  unfoldable pub release_claimed_job_without_definition :
      String → String → Option String → String → Time → Io redis Unit
  release_claimed_job_without_definition queue_name job_id pending_error worker_id now = do
    other ← lock_owned_by_other job_id worker_id
    release_without_known other queue_name job_id pending_error worker_id now
