-- ===== src/Worker/Execute.antt =====
-- `execute_job` of rrq-rs/orchestrator/src/worker.rs. The runners, the request's fresh id and the
-- deadline are given; spans, metrics and log lines are left out.
pub mod Loss
pub mod Ends
use Prim.Native.String
use rrq.Prelude.{
  ℕ, String, Bool, true, false, Option, none, some, List, [], ◌∷◌, ◌==◌, if◌then◌else◌, unwrap_or,
}
use rrq.Prelude.Int.{ℤ, pos, ◌+ℤ◌, leb_ℤ}
use rrq.Redis.{Redis}
use rrq.Redis.Calls.{World, Io, Result, RunningJobInfo, ok, err, pure, fail, attempt, ◌>>=◌, ◌>>◌}
use rrq.Job.{Codec, Job}
use rrq.Platform.{Platform, RrqSettings}
use rrq.Protocol.{ExecutionRequest, protocol_version}
use rrq.Worker.Routing.{resolve_routed_runner, split_runner_name, as_u32}
use rrq.Worker.Outcome.{
  RunnerExecutionResult, completed, failed, timed_out, move_to_dlq, process_failure_job,
  handle_execution_outcome, cleanup_running, job_timeout, timed_out_after, result_of,
}

-- `get_mut(&job.id)` on the running table.
abbrev pub update_info :
    String
    → (RunningJobInfo → RunningJobInfo)
    → List (String × RunningJobInfo)
    → List (String × RunningJobInfo)
update_info id f [] = []
update_info id f ((k, info) ∷ rest) =
    if k == id then (k, f info) ∷ rest else (k, info) ∷ update_info id f rest

module _ (p : Platform) (settings : RrqSettings p.redis.floats.F64) where
  open p use {redis, codec}
  open redis use {F64}
  open codec use {Json, Params, Context, Time}

  abbrev pub Request : Type 0
  Request = ExecutionRequest Params Context Time

  -- The configured runners by name: what each answers to a request.
  abbrev pub Runners : Type 0
  Runners = String → Option (Request → RunnerExecutionResult Json F64)

  abbrev pub note :
      (List (String × RunningJobInfo) → List (String × RunningJobInfo)) → Io redis Unit
  note f w = (ok tt, record w { running = f w.running })

  -- `handle_fatal_job_error(...).await?; cleanup_running(...).await?`.
  unfoldable pub end_fatally : Job codec → String → String → Time → Io redis Unit
  end_fatally j message worker_id now = do
    move_to_dlq p settings j message now
    cleanup_running p settings j.id worker_id

  -- What becomes of the runner's answer.
  unfoldable pub handle_result : Job codec → RunnerExecutionResult Json F64 → Time → Io redis Unit
  handle_result j (completed outcome) now = handle_execution_outcome p settings j outcome now
  handle_result j (failed message) now =
      process_failure_job p settings j (String.◌++◌ "Runner transport error: " message) now
  handle_result j timed_out now = move_to_dlq p settings j (timed_out_after p settings j) now

  -- The end of `execute_job`: the tracking is cleaned up whether the outcome was stored or not.
  unfoldable pub settle : Job codec → RunnerExecutionResult Json F64 → String → Time → Io redis Unit
  settle j answer worker_id now = do
    outcome_result ← attempt (handle_result j answer now)
    cleanup_result ← attempt (cleanup_running p settings j.id worker_id)
    result_of p settings outcome_result
    result_of p settings cleanup_result

  abbrev pub request_for : Job codec → String → String → String → String → Time → Request
  request_for j handler_name request_id queue_name worker_id deadline = record {
    protocol_version = protocol_version;
    request_id = request_id;
    job_id = j.id;
    function_name = handler_name;
    params = j.job_params;
    context = record {
      job_id = j.id;
      attempt = as_u32 (j.current_retries +ℤ pos 1);
      enqueue_time = j.enqueue_time;
      queue_name = queue_name;
      deadline = some deadline;
      trace_context = j.trace_context;
      correlation_context = j.correlation_context;
      worker_id = some worker_id;
    };
  }

  abbrev pub dispatch :
      Option (Request → RunnerExecutionResult Json F64)
      → Job codec
      → Request
      → String
      → String
      → Time
      → Io redis Unit
  dispatch none j request runner_name worker_id now =
      end_fatally j (String.◌++◌ "No runner configured for '" (String.◌++◌ runner_name "'."))
        worker_id now
  dispatch (some runner) j request runner_name worker_id now = do
    note (update_info j.id (λ info. record info { request_id = some request.request_id }))
    settle j (runner request) worker_id now

  abbrev pub on_runner :
      Runners → Job codec → String → String → String → String → String → Time → Time → Io redis Unit
  on_runner runners j runner_name handler_name request_id queue_name worker_id deadline now = do
    note (update_info j.id (λ info. record info { runner_name = some runner_name }))
    dispatch (runners runner_name) j
        (request_for j handler_name request_id queue_name worker_id deadline) runner_name worker_id
        now

  unfoldable pub execute_job :
      Runners → Job codec → String → String → String → Time → Time → Io redis Unit
  execute_job runners j queue_name worker_id request_id deadline now =
      if leb_ℤ (job_timeout p settings j) (pos 0)
      then end_fatally j
          (String.◌++◌ "Invalid job timeout: "
            (String.◌++◌ (codec.int_text (job_timeout p settings j)) ". Must be positive."))
          worker_id now
      else (let (runner_name, handler_name) = split_runner_name j.function_name in
          if handler_name == ""
          then end_fatally j "Handler name is missing" worker_id now
          else on_runner runners j
              (unwrap_or runner_name (
                unwrap_or (resolve_routed_runner settings.runner_routes queue_name)
                  settings.default_runner_name))
              handler_name request_id queue_name worker_id deadline now)
