-- ===== src/Worker/Drain/Loss.antt =====
-- `drain_tasks` of rrq-rs/orchestrator/src/worker.rs when the request that puts an interrupted job
-- back is lost.
use rrq.Prelude.{String, none, some, ◌≡◌, ◌==◌, true, false, [], ◌∷◌, refl}
use rrq.Keys.{queue, active}
use rrq.Redis.Calls.{World, RunningJobInfo, ok, lost_request, call}
use rrq.Job.{Job}
use rrq.Platform.{Platform, RrqSettings}
use rrq.Tracking.{live, status, Held}
use rrq.Store.{get_job_definition, atomic_requeue_job, remove_active_job, release_job_lock_if_owner}
use rrq.Worker.Cleaned.{cleaned, cleaned-loses}
use rrq.Worker.Release.{is_queueable}
use rrq.Worker.Drain.{drain_job, requeue_interrupted}

module _ (p : Platform) (settings : RrqSettings p.redis.floats.F64) where
  open p use {redis, codec}
  open redis use {zscore}
  open codec use {Time}

  -- The worlds in which the definition has been read and the next request is lost.
  abbrev after_read : World redis → World redis
  after_read w = record w { faults = lost_request ∷ [] }

  interrupted-lost :
      (id worker_id : String) (info : RunningJobInfo) (j : Job codec) (now : Time) (w : World redis)
      → is_queueable j.status ≡ true
      → requeue_interrupted p settings (some j) id info worker_id now (after_read w)
        ≡ (ok tt, record w { faults = [] })
  unfolding atomic_requeue_job call
  interrupted-lost id worker_id info j now w q = rw (q, requeue_interrupted) refl

  drain-cleaned :
      (id worker_id : String) (info : RunningJobInfo) (j : Job codec) (now : Time) (w : World redis)
      → is_queueable j.status ≡ true
      → get_job_definition p id settings.default_max_retries w ≡ (ok (some j), after_read w)
      → (drain_job p settings id info worker_id now w).1.db ≡ cleaned redis id worker_id w.db
  unfolding drain_job remove_active_job release_job_lock_if_owner call
  drain-cleaned id worker_id info j now w q d =
      rw (d, interrupted-lost id worker_id info j now w q) refl

  -- Where a job's definition has been read as active, pending or retrying, the request that puts it
  -- back is lost and the clean-up is served, a job that only this worker held keeps its status and is
  -- in no queue and no worker's set any more.
  pub drain-loses :
      (id worker_id : String) (info : RunningJobInfo) (j : Job codec) (now : Time) (w : World redis)
      → is_queueable j.status ≡ true
      → get_job_definition p id settings.default_max_retries w
        ≡ (ok (some j), record w { faults = lost_request ∷ [] })
      → live (status redis w.db id) ≡ true
      → ((q : String) → zscore w.db (queue q) id ≡ none)
      → ((a : String) → (worker_id == a) ≡ false → zscore w.db (active a) id ≡ none)
      → (live (status redis (drain_job p settings id info worker_id now w).1.db id) ≡ true)
        × ¬ Held redis (drain_job p settings id info worker_id now w).1.db id
  drain-loses id worker_id info j now w q d alive unqueued untracked =
      rw (drain-cleaned id worker_id info j now w q d)
        (cleaned-loses redis id worker_id w.db alive unqueued untracked)
