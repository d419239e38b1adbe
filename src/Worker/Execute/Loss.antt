-- ===== src/Worker/Execute/Loss.antt =====
-- `execute_job` of rrq-rs/orchestrator/src/worker.rs when the request that stores the outcome is
-- lost.
use rrq.Prelude.{String, Bool, true, false, none, ◌≡◌, ◌==◌, refl, [], ◌∷◌, if◌then◌else◌}
use rrq.Prelude.Int.{leb_ℤ, pos, ◌+ℤ◌}
use rrq.Keys.{queue, active}
use rrq.Redis.Calls.{Io, World, lost_request, err, redis_error, call}
use rrq.Job.{Job}
use rrq.Platform.{Platform, RrqSettings}
use rrq.Protocol.{OutcomeStatus}
use rrq.Tracking.{live, status, Held}
use rrq.Store.{
  atomic_move_job_to_dlq, atomic_retry_job, save_job_result, remove_active_job,
  release_job_lock_if_owner,
}
use rrq.Worker.Outcome.{
  RunnerExecutionResult, completed, failed, timed_out, cleanup_running, move_to_dlq, Outcome,
  schedule_retry, process_retry_job, process_failure_job, handle_execution_outcome, by_status,
}
use rrq.Worker.Cleaned.{cleaned, cleaned-loses}
use rrq.Worker.Execute.{settle, handle_result}

module _ (p : Platform) (settings : RrqSettings p.redis.floats.F64) where
  open p use {redis, codec}
  open redis use {F64, Db, hget, zscore, hget-write, zscore-write}
  open codec use {Json, Time}

  -- The action's first request is lost: it fails, having done nothing.
  abbrev Lost : Io redis (Unit {0}) → Type 0
  Lost m =
      (w : World redis)
      → w.faults ≡ lost_request ∷ []
      → m w ≡ (err redis_error, record w { faults = [] })

  dlq-Lost :
      (j : Job codec) (message : String) (now : Time) → Lost (move_to_dlq p settings j message now)
  unfolding move_to_dlq atomic_move_job_to_dlq call
  dlq-Lost j message now w e = simp e

  retry-Lost :
      (j : Job codec) (message : String) (delay : F64) (now : Time)
      → Lost (schedule_retry p settings j message delay now)
  unfolding schedule_retry atomic_retry_job call
  retry-Lost j message delay now w e = simp e

  Lost-if : (b : Bool) (m n : Io redis (Unit {0})) → Lost m → Lost n → Lost (if b then m else n)
  Lost-if true m n f g = f
  Lost-if false m n f g = g

  failure-Lost :
      (j : Job codec) (message : String) (now : Time)
      → Lost (process_failure_job p settings j message now)
  unfolding process_failure_job
  failure-Lost j message now w e =
      Lost-if (leb_ℤ j.max_retries (j.current_retries +ℤ pos 1)) _ _ (dlq-Lost j message now)
        (retry-Lost j message _ now) w e

  by_status-Lost :
      (st : OutcomeStatus) (j : Job codec) (outcome : Outcome p settings) (now : Time)
      → Lost (by_status p settings st j outcome now)
  unfolding save_job_result call process_retry_job
  by_status-Lost OutcomeStatus.success j outcome now w e = simp e
  by_status-Lost OutcomeStatus.retry j outcome now w e =
      Lost-if (leb_ℤ j.max_retries (j.current_retries +ℤ pos 1)) _ _ (dlq-Lost j _ now)
        (retry-Lost j _ _ now) w e
  by_status-Lost OutcomeStatus.timeout j outcome now w e = dlq-Lost j _ now w e
  by_status-Lost OutcomeStatus.error j outcome now w e =
      Lost-if _ _ _ (dlq-Lost j _ now) (failure-Lost j _ now) w e

  answer-Lost :
      (j : Job codec) (answer : RunnerExecutionResult Json F64) (now : Time)
      → Lost (handle_result p settings j answer now)
  unfolding handle_result handle_execution_outcome
  answer-Lost j (completed outcome) now = by_status-Lost outcome.status j outcome now
  answer-Lost j (failed message) now = failure-Lost j _ now
  answer-Lost j timed_out now = dlq-Lost j _ now

  settle-cleaned :
      (j : Job codec) (answer : RunnerExecutionResult Json F64) (worker_id : String) (now : Time)
      (w : World redis)
      → w.faults ≡ lost_request ∷ []
      → (settle p settings j answer worker_id now w).1.db ≡ cleaned redis j.id worker_id w.db
  unfolding settle cleanup_running remove_active_job release_job_lock_if_owner call
  settle-cleaned j answer worker_id now w e = rw (answer-Lost j answer now w e) refl

  -- Where the request that stores the outcome is lost and the clean-up is served, a job that only
  -- this worker held is still unfinished, and is in no queue and no worker's set any more.
  pub settle-loses :
      (j : Job codec) (answer : RunnerExecutionResult Json F64) (worker_id : String) (now : Time)
      (w : World redis)
      → w.faults ≡ lost_request ∷ []
      → live (status redis w.db j.id) ≡ true
      → ((q : String) → zscore w.db (queue q) j.id ≡ none)
      → ((a : String) → (worker_id == a) ≡ false → zscore w.db (active a) j.id ≡ none)
      → (live (status redis (settle p settings j answer worker_id now w).1.db j.id) ≡ true)
        × ¬ Held redis (settle p settings j answer worker_id now w).1.db j.id
  settle-loses j answer worker_id now w e alive unqueued untracked =
      rw (settle-cleaned j answer worker_id now w e)
        (cleaned-loses redis j.id worker_id w.db alive unqueued untracked)
