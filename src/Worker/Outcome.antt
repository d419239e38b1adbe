-- ===== src/Worker/Outcome.antt =====
-- What the worker does with the end of a job: `move_to_dlq`, `process_retry_job`,
-- `process_failure_job`, `handle_execution_outcome`, `cleanup_running` and `execute_job` of
-- rrq-rs/orchestrator/src/worker.rs. An operation takes the time that it reads.
pub mod Tracked
pub mod Endings
use Prim.Native.String
use rrq.Prelude.{
  ℕ, String, Bool, true, false, Option, none, some, List, [], ◌∷◌, ◌==◌, if◌then◌else◌, unwrap_or,
  is_some,
}
use rrq.Prelude.Int.{ℤ, pos, ◌+ℤ◌, ltb_ℤ, leb_ℤ}
use rrq.Keys.{normalize_queue_name}
use rrq.Redis.{Redis}
use rrq.Redis.Calls.{
  World, Io, Error, Result, RunningJobInfo, invalid, ok, err, call, pure, fail, attempt, ◌>>=◌,
  ◌>>◌,
}
use rrq.Job.{Codec, Job, JobStatus, retrying, and_then}
use rrq.Platform.{Platform, RrqSettings}
use rrq.Protocol.{
  ExecutionOutcome, ExecutionError, ExecutionRequest, OutcomeStatus, protocol_version,
}
use rrq.Store
use rrq.Worker.Routing.{calculate_backoff_seconds, resolve_routed_runner, split_runner_name, as_u32}

-- `RunnerExecutionResult` of rrq-rs/orchestrator/src/runner.rs; `failed` is a transport error.
pub data RunnerExecutionResult (Json F64 : Type 0) : Type 0 where
  completed : ExecutionOutcome Json F64 → RunnerExecutionResult Json F64
  failed : String → RunnerExecutionResult Json F64
  timed_out : RunnerExecutionResult Json F64

module _ (p : Platform) (settings : RrqSettings p.redis.floats.F64) where
  open p use {redis, codec}
  open redis use {F64, floats}
  open codec use {Json, Params, Context, Time}

  abbrev pub Outcome : Type 0
  Outcome = ExecutionOutcome Json F64

  -- DEFAULT_DLQ_RESULT_TTL_SECONDS, a week.
  abbrev dlq_result_ttl_seconds : ℤ
  dlq_result_ttl_seconds = pos 604800

  unfoldable pub move_to_dlq : Job codec → String → Time → Io redis Unit
  move_to_dlq j error_message now = do
    result ←
        Store.atomic_move_job_to_dlq p j.id (unwrap_or j.dlq_name settings.default_dlq_name)
          error_message now dlq_result_ttl_seconds j.job_unique_key
    if ltb_ℤ result (pos 0) then fail (invalid "atomic move to dlq failed") else pure tt

  -- The rest of a retry, once its delay is known.
  unfoldable pub schedule_retry : Job codec → String → F64 → Time → Io redis Unit
  schedule_retry j error_message delay_seconds now =
      let retry_at_score =
        floats.add (p.millis now) (floats.mul delay_seconds (floats.of_nat 1000)) in
      let target_queue =
        normalize_queue_name (unwrap_or j.queue_name settings.default_queue_name) in
      (do
        Store.atomic_retry_job p j.id target_queue retry_at_score error_message retrying
        attempt (Store.update_job_next_scheduled_run_time p j.id (p.time_at retry_at_score now))
        pure tt)

  unfoldable pub process_retry_job : Job codec → String → Option F64 → Time → Io redis Unit
  process_retry_job j error_message retry_after_seconds now =
      let anticipated_retry = j.current_retries +ℤ pos 1 in
      if leb_ℤ j.max_retries anticipated_retry
      then move_to_dlq j error_message now
      else schedule_retry j error_message
          (unwrap_or retry_after_seconds
            (calculate_backoff_seconds floats settings anticipated_retry))
          now

  unfoldable pub process_failure_job : Job codec → String → Time → Io redis Unit
  process_failure_job j error_message now =
      let anticipated_retry = j.current_retries +ℤ pos 1 in
      if leb_ℤ j.max_retries anticipated_retry
      then move_to_dlq j error_message now
      else schedule_retry j error_message
          (calculate_backoff_seconds floats settings anticipated_retry) now

  abbrev message_or : Outcome → String → String
  message_or outcome default = elim outcome.error [ none ↦ default | some e ↦ e.message ]

  abbrev pub job_timeout : Job codec → ℤ
  job_timeout j = unwrap_or j.job_timeout_seconds settings.default_job_timeout_seconds

  abbrev pub timed_out_after : Job codec → String
  timed_out_after j =
      String.◌++◌ "Job timed out after " (String.◌++◌ (codec.int_text (job_timeout j)) "s.")

  abbrev is_type : String → Option String → Bool
  is_type name none = false
  is_type name (some t) = t == name

  abbrev is_handler_not_found : Outcome → Bool
  is_handler_not_found outcome = elim outcome.error [
    | none ↦ false
    | some e ↦ is_type "handler_not_found" e.error_type
  ]

  abbrev pub release_unique : Option String → Io redis Unit
  release_unique none = pure tt
  release_unique (some unique_key) = Store.release_unique_job_lock p unique_key

  abbrev pub by_status : OutcomeStatus → Job codec → Outcome → Time → Io redis Unit
  by_status OutcomeStatus.success j outcome now = do
    Store.save_job_result p j.id (unwrap_or outcome.result codec.null)
        (unwrap_or j.result_ttl_seconds settings.default_result_ttl_seconds) now
    release_unique j.job_unique_key
  by_status OutcomeStatus.retry j outcome now =
      process_retry_job j (message_or outcome "Job requested retry") outcome.retry_after_seconds now
  by_status OutcomeStatus.timeout j outcome now =
      move_to_dlq j (message_or outcome (timed_out_after j)) now
  by_status OutcomeStatus.error j outcome now =
      if is_handler_not_found outcome
      then move_to_dlq j (message_or outcome "Handler not found") now
      else process_failure_job j (message_or outcome "Job failed") now

  unfoldable pub handle_execution_outcome : Job codec → Outcome → Time → Io redis Unit
  handle_execution_outcome j outcome now = by_status outcome.status j outcome now

  abbrev pub without : String → List (String × RunningJobInfo) → List (String × RunningJobInfo)
  without id [] = []
  without id ((k, info) ∷ rest) = if k == id then without id rest else (k, info) ∷ without id rest

  abbrev pub without_id : String → List String → List String
  without_id id [] = []
  without_id id (k ∷ rest) = if k == id then without_id id rest else k ∷ without_id id rest

  -- The tables of the worker forget the job.
  abbrev pub forget : String → Io redis Unit
  forget id w =
      (ok tt, record w { running = without id w.running; aborts = without_id id w.aborts })

  abbrev pub result_of : {A : Type 0} → Result A → Io redis A
  result_of (ok a) = pure a
  result_of (err e) = fail e

  abbrev pub first_error : Result (Unit {0}) → Result {0} Bool → Io redis Unit
  first_error (err e) _ = fail e
  first_error (ok _) (err e) = fail e
  first_error (ok _) (ok _) = pure tt

  unfoldable pub cleanup_running : String → String → Io redis Unit
  cleanup_running job_id worker_id = do
    remove_active_result ← attempt (Store.remove_active_job p worker_id job_id)
    release_lock_result ← attempt (Store.release_job_lock_if_owner p job_id worker_id)
    forget job_id
    first_error remove_active_result release_lock_result
