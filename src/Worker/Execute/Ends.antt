-- ===== src/Worker/Execute/Ends.antt =====
-- How `execute_job` of rrq-rs/orchestrator/src/worker.rs ends, under any sequence of failing calls.
use rrq.Prelude.{arith, String, Option, none, some, ◌≡◌}
use rrq.Redis.Calls.{Io, World, Result, ok, err, attempt, ◌>>=◌, ◌>>◌}
use rrq.Redis.Triples.{
  Triple, Keeps, Ends, Triple-pure, Triple-fail, Triple-if, Triple-bind, Triple-attempt,
}
use rrq.Job.{Job}
use rrq.Platform.{Platform, RrqSettings}
use rrq.Tracking.{NoLoss}
use rrq.Worker.Outcome.{RunnerExecutionResult, completed, failed, timed_out, result_of}
use rrq.Worker.Outcome.Tracked.{Stored}
use rrq.Worker.Outcome.Endings.{
  Settles, move_to_dlq-Settles, process_failure-Settles, handle_execution_outcome-Settles,
  cleanup-Stored, Triple-fails, attempt-keeps,
}
use rrq.Worker.Execute.{
  execute_job, settle, end_fatally, handle_result, dispatch, on_runner, note, update_info,
  request_for, Runners, Request,
}

module _ (p : Platform) (settings : RrqSettings p.redis.floats.F64) where
  open p use {redis, codec}
  open redis use {F64, Db}
  open codec use {Json, Time}

  -- A job that is ended before it is dispatched is settled, or the error leaves every job where
  -- the system finds it.
  pub end_fatally-Settles :
      (j : Job codec) (message worker_id : String) (now : Time)
      → Settles p settings j.id (end_fatally p settings j message worker_id now)
  unfolding end_fatally
  end_fatally-Settles j message worker_id now =
      Triple-bind (λ _. Stored redis j.id) _ _ (move_to_dlq-Settles p settings j message now)
        (λ _.
          Triple-fails p settings _ (cleanup-Stored p settings j.id worker_id) (λ db s. s.no_loss))

  handle_result-Settles :
      (j : Job codec) (answer : RunnerExecutionResult Json F64) (now : Time)
      → Settles p settings j.id (handle_result p settings j answer now)
  unfolding handle_result
  handle_result-Settles j (completed outcome) now =
      handle_execution_outcome-Settles p settings j outcome now
  handle_result-Settles j (failed message) now = process_failure-Settles p settings j _ now
  handle_result-Settles j timed_out now = move_to_dlq-Settles p settings j _ now

  -- Any error.
  abbrev pub Failed : Db → Type 0
  Failed db = Unit {0}

  result_of-Stored :
      (id : String) (res : Result (Unit {0}))
      → Triple (Stored redis id) (result_of p settings res) (λ _. Stored redis id) Failed
  result_of-Stored id (ok u) = Triple-pure u (λ db s. s)
  result_of-Stored id (err e) = Triple-fail e (λ db s. tt)

  -- An error of storing the outcome is reported after the clean-up.
  reported :
      (id : String) (outcome : Result (Unit {0})) (cleanup : Io redis (Unit {0}))
      → Keeps (Stored redis id) cleanup
      → Triple
          (Ends (λ _. Stored redis id) (NoLoss redis) outcome)
          (attempt cleanup >>= λ c. result_of p settings outcome >> result_of p settings c)
          (λ _. Stored redis id)
          Failed
  reported id (ok u) cleanup t =
      Triple-bind (λ _. Stored redis id) (attempt cleanup) _ (attempt-keeps p settings cleanup t)
        (λ c. result_of-Stored id c)
  reported id (err e) cleanup t = record { at = λ w h. tt }

  settle-Settles :
      (j : Job codec) (answer : RunnerExecutionResult Json F64) (worker_id : String) (now : Time)
      → Triple
          (NoLoss redis)
          (settle p settings j answer worker_id now)
          (λ _. Stored redis j.id)
          Failed
  unfolding settle
  settle-Settles j answer worker_id now =
      Triple-bind (Ends (λ _. Stored redis j.id) (NoLoss redis))
        (attempt (handle_result p settings j answer now)) _
        (Triple-attempt _ (handle_result-Settles j answer now))
        (λ outcome. reported j.id outcome _ (cleanup-Stored p settings j.id worker_id))

  fatal :
      (j : Job codec) (message worker_id : String) (now : Time)
      → Triple
          (NoLoss redis)
          (end_fatally p settings j message worker_id now)
          (λ _. Stored redis j.id)
          Failed
  fatal j message worker_id now =
      Triple-fails p settings _ (end_fatally-Settles j message worker_id now) (λ db n. tt)

  dispatch-Settles :
      (runner : Option (Request p settings → RunnerExecutionResult Json F64)) (j : Job codec)
      (request : Request p settings) (runner_name worker_id : String) (now : Time)
      → Triple
          (NoLoss redis)
          (dispatch p settings runner j request runner_name worker_id now)
          (λ _. Stored redis j.id)
          Failed
  dispatch-Settles none j request runner_name worker_id now = fatal j _ worker_id now
  dispatch-Settles (some runner) j request runner_name worker_id now =
      Triple-bind (λ _. NoLoss redis) (note p settings _) _ (record { at = λ w h. h })
        (λ _. settle-Settles j (runner request) worker_id now)

  on_runner-Settles :
      (runners : Runners p settings) (j : Job codec)
      (runner_name handler_name request_id queue_name worker_id : String) (deadline now : Time)
      → Triple
          (NoLoss redis)
          (on_runner p settings runners j runner_name handler_name request_id queue_name worker_id
            deadline now)
          (λ _. Stored redis j.id)
          Failed
  on_runner-Settles runners j runner_name handler_name request_id queue_name worker_id deadline
        now =
      Triple-bind (λ _. NoLoss redis)
        (note p settings
          (update_info j.id (λ info. record info { runner_name = some runner_name })))
        _ (record { at = λ w h. h })
        (λ _.
          dispatch-Settles (runners runner_name) j
            (request_for p settings j handler_name request_id queue_name worker_id deadline)
            runner_name worker_id now)

  pub execute_job-Settles :
      (runners : Runners p settings) (j : Job codec) (queue_name worker_id request_id : String)
      (deadline now : Time)
      → Triple
          (NoLoss redis)
          (execute_job p settings runners j queue_name worker_id request_id deadline now)
          (λ _. Stored redis j.id)
          Failed
  unfolding execute_job
  execute_job-Settles runners j queue_name worker_id request_id deadline now =
      search (Triple-if, fatal, on_runner-Settles) depth 9

  returned :
      (id : String) (res : Result (Unit {0})) (db : Db)
      → Ends (λ _. Stored redis id) Failed res db
      → res ≡ ok tt
      → Stored redis id db
  returned id (ok u) db h e = h
  returned id (err x) db h e = grind (arith)

  -- Whatever the runner answers and whichever calls of Redis fail: when `execute_job` returns
  -- without an error from data in which no job was out of reach, none is out of reach, and its own
  -- job has ended or is queued again.
  pub execute_job-Stored :
      (runners : Runners p settings) (j : Job codec) (queue_name worker_id request_id : String)
      (deadline now : Time) (w : World redis)
      → NoLoss redis w.db
      → (execute_job p settings runners j queue_name worker_id request_id deadline now w).0 ≡ ok tt
      → Stored redis j.id
          (execute_job p settings runners j queue_name worker_id request_id deadline now w).1.db
  execute_job-Stored runners j queue_name worker_id request_id deadline now w n e =
      returned j.id _ _
        ((execute_job-Settles runners j queue_name worker_id request_id deadline now).at w n) e
