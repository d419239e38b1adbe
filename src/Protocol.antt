-- ===== src/Protocol.antt =====
-- The messages between the orchestrator and a runner: the types and constructors of
-- rrq-rs/protocol/src/lib.rs. `Json`, `Context` and `Time` are serde_json's and chrono's.
pub mod Outcome
pub mod Frame
use rrq.Prelude.{ℕ, String, Bool, Option}

abbrev pub protocol_version : String
protocol_version = "2"

pub data OutcomeStatus : Type 0 where
  success retry timeout error : OutcomeStatus

pub record ExecutionError (Json : Type 0) : Type 0 where
  pub message : String
  pub error_type : Option String
  pub code : Option String
  pub details : Option Json

pub record ExecutionOutcome (Json F64 : Type 0) : Type 0 where
  pub job_id : Option String
  pub request_id : Option String
  pub status : OutcomeStatus
  pub result : Option Json
  pub error : Option (ExecutionError Json)
  pub retry_after_seconds : Option F64

pub record ExecutionContext (Context Time : Type 0) : Type 0 where
  pub job_id : String
  pub attempt : ℕ
  pub enqueue_time : Time
  pub queue_name : String
  pub deadline : Option Time
  pub trace_context : Option Context
  pub correlation_context : Option Context
  pub worker_id : Option String

pub record ExecutionRequest (Params Context Time : Type 0) : Type 0 where
  pub protocol_version : String
  pub request_id : String
  pub job_id : String
  pub function_name : String
  pub params : Params
  pub context : ExecutionContext Context Time

pub record CancelRequest : Type 0 where
  pub protocol_version : String
  pub job_id : String
  pub request_id : Option String
  pub hard_kill : Bool

pub data RunnerMessage (Json Params Context Time F64 : Type 0) : Type 0 where
  request : ExecutionRequest Params Context Time → RunnerMessage Json Params Context Time F64
  response : ExecutionOutcome Json F64 → RunnerMessage Json Params Context Time F64
  cancel : CancelRequest → RunnerMessage Json Params Context Time F64
