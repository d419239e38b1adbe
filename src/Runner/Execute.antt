-- ===== src/Runner/Execute.antt =====
-- `Registry` of rrq-rs/runner/src/registry.rs and `execute_with_deadline` of
-- rrq-rs/runner/src/runtime.rs. A handler is a function of its request. Which of the handler and the
-- timer is first, and whether the time that remains is a duration, is the environment's choice.
pub mod Answers
use Prim.Native.String
use rrq.Prelude.{
  String, Bool, true, false, Option, none, some, List, [], ◌∷◌, ◌==◌, if◌then◌else◌, or_else,
}
use rrq.Platform.{Platform}
use rrq.Protocol.{ExecutionOutcome, ExecutionRequest}
use rrq.Protocol.Outcome.{handler_not_found}
use rrq.Protocol.Outcome

pub data Race : Type 0 where
  in_time too_late no_duration : Race

module _ (p : Platform) where
  open p.codec use {Json, Params, Context, Time}

  abbrev pub Request : Type 0
  Request = ExecutionRequest Params Context Time

  abbrev pub Answer : Type 0
  Answer = ExecutionOutcome Json p.redis.floats.F64

  abbrev pub Handler : Type 0
  Handler = Request → Answer

  abbrev pub Registry : Type 0
  Registry = List (String × Handler)

  -- `HashMap::insert`.
  abbrev pub register : Registry → String → Handler → Registry
  register [] name handler = (name, handler) ∷ []
  register ((n, h) ∷ handlers) name handler =
      let rest = register handlers name handler in
      if n == name then (name, handler) ∷ handlers else (n, h) ∷ rest

  abbrev pub get : Registry → String → Option Handler
  get [] name = none
  get ((n, h) ∷ handlers) name = let rest = get handlers name in if n == name then some h else rest

  -- The ids that the handler has left out.
  abbrev pub with_ids : String → String → Answer → Answer
  with_ids job_id request_id outcome = record outcome {
    job_id = or_else outcome.job_id (some job_id);
    request_id = or_else outcome.request_id (some request_id);
  }

  abbrev pub handled : Option Handler → Request → Answer
  handled (some handler) request = handler request
  handled none request =
      handler_not_found request.job_id request.request_id
        (String.◌++◌ "No handler registered for function '" (String.◌++◌ request.function_name "'"))

  unfoldable pub execute_with : Registry → Request → Answer
  execute_with registry request =
      with_ids request.job_id request.request_id
        (handled (get registry request.function_name) request)

  abbrev pub raced : Registry → Request → Race → Answer
  raced registry request in_time = execute_with registry request
  raced registry request too_late =
      Outcome.timeout request.job_id request.request_id "Job execution timed out"
  raced registry request no_duration =
      Outcome.timeout request.job_id request.request_id "Job deadline exceeded"

  abbrev pub by_deadline : (Time → Bool) → Registry → Request → Race → Option Time → Answer
  by_deadline has_passed registry request race none = execute_with registry request
  by_deadline has_passed registry request race (some deadline) =
      if has_passed deadline
      then Outcome.timeout request.job_id request.request_id "Job deadline exceeded"
      else raced registry request race

  -- `has_passed` is `deadline <= now`.
  unfoldable pub execute_with_deadline : (Time → Bool) → Registry → Request → Race → Answer
  execute_with_deadline has_passed registry request race =
      by_deadline has_passed registry request race request.context.deadline
