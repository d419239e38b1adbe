-- ===== src/Worker/Drain.antt =====
-- The end of `drain_tasks` in rrq-rs/orchestrator/src/worker.rs: the jobs that still run when a
-- worker shuts down are put back. The waiting, the hints to the runners and the aborts come before
-- it and touch no data of Redis.
pub mod Loss
use rrq.Prelude.{String, Option, none, some, List, [], ◌∷◌, if◌then◌else◌}
use rrq.Redis.Calls.{Io, RunningJobInfo, pure, attempt, ◌>>=◌, ◌>>◌}
use rrq.Job.{Job}
use rrq.Platform.{Platform, RrqSettings}
use rrq.Store.{get_job_definition, atomic_requeue_job, remove_active_job, release_job_lock_if_owner}
use rrq.Worker.Release.{is_queueable, is_active}

module _ (p : Platform) (settings : RrqSettings p.redis.floats.F64) where
  open p use {redis, codec}
  open codec use {Time}

  -- The result of the script is only logged.
  abbrev pub requeue_interrupted :
      Option (Job codec) → String → RunningJobInfo → String → Time → Io redis Unit
  requeue_interrupted none job_id info worker_id now = pure tt
  requeue_interrupted (some j) job_id info worker_id now =
      if is_queueable j.status
      then (do
        attempt (
            atomic_requeue_job p job_id info.queue_name (p.millis now)
              (if is_active j.status
                then "Job execution interrupted by worker shutdown. Re-queued."
                else "")
              worker_id worker_id "")
        pure tt)
      else pure tt

  unfoldable pub drain_job : String → RunningJobInfo → String → Time → Io redis Unit
  drain_job job_id info worker_id now = do
    job_opt ← get_job_definition p job_id settings.default_max_retries
    requeue_interrupted job_opt job_id info worker_id now
    attempt (remove_active_job p worker_id job_id)
    attempt (release_job_lock_if_owner p job_id worker_id)
    pure tt

  unfoldable pub drain_running : List (String × RunningJobInfo) → String → Time → Io redis Unit
  drain_running [] worker_id now = pure tt
  drain_running ((job_id, info) ∷ rest) worker_id now = do
    drain_job job_id info worker_id now
    drain_running rest worker_id now
