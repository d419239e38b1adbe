-- ===== src/Protocol/Outcome.antt =====
-- The constructors of `ExecutionOutcome` in rrq-rs/protocol/src/lib.rs. The caller gives `success`
-- its result as a JSON value.
use rrq.Prelude.{String, Option, none, some}
use rrq.Protocol.{OutcomeStatus, ExecutionError, ExecutionOutcome}

abbrev plain : {Json : Type 0} → String → Option String → ExecutionError Json
plain message error_type = record {
  message = message;
  error_type = error_type;
  code = none;
  details = none;
}

module _ {Json F64 : Type 0} where
  unfoldable pub success : String → String → Json → ExecutionOutcome Json F64
  success job_id request_id result = record {
    job_id = some job_id;
    request_id = some request_id;
    status = OutcomeStatus.success;
    result = some result;
    error = none;
    retry_after_seconds = none;
  }

  unfoldable pub retry : String → String → String → Option F64 → ExecutionOutcome Json F64
  retry job_id request_id message retry_after_seconds = record {
    job_id = some job_id;
    request_id = some request_id;
    status = OutcomeStatus.retry;
    result = none;
    error = some (plain message none);
    retry_after_seconds = retry_after_seconds;
  }

  unfoldable pub timeout : String → String → String → ExecutionOutcome Json F64
  timeout job_id request_id message = record {
    job_id = some job_id;
    request_id = some request_id;
    status = OutcomeStatus.timeout;
    result = none;
    error = some (plain message none);
    retry_after_seconds = none;
  }

  unfoldable pub error : String → String → String → ExecutionOutcome Json F64
  error job_id request_id message = record {
    job_id = some job_id;
    request_id = some request_id;
    status = OutcomeStatus.error;
    result = none;
    error = some (plain message none);
    retry_after_seconds = none;
  }

  unfoldable pub handler_not_found : String → String → String → ExecutionOutcome Json F64
  handler_not_found job_id request_id message = record {
    job_id = some job_id;
    request_id = some request_id;
    status = OutcomeStatus.error;
    result = none;
    error = some (plain message (some "handler_not_found"));
    retry_after_seconds = none;
  }
