-- ===== src/Examples/Runs.antt =====
-- The theorems on the runner at concrete data.
use rrq.Prelude.{false, Option, none, some, [], ◌∷◌, ◌≡◌, ap, subst, refl, inl, arith, length, ◌≤◌}
use rrq.Prelude.Int.{pos}
use rrq.Protocol.{OutcomeStatus, CancelRequest}
use rrq.Runner.Execute.{Request, Answer, Registry, Handler, in_time, execute_with_deadline}
use rrq.Runner.Execute.Answers.{Honest, execute_with_deadline-names}
use rrq.Runner.Tables.{
  Runtime, accept, track, finish, close, contains, get, cancelled, handle_cancel,
}
use rrq.Runner.Tables.Bound.{Step, Reach, Reach-Bounded}
use rrq.Runner.Tables.Leak.{close-leaks}
use rrq.Runner.Tables.Cancel.{handle_cancel-once}
use rrq.Examples.Data.{sample_platform}

abbrev sample_request : Request sample_platform
sample_request = record {
  protocol_version = "2";
  request_id = "r";
  job_id = "a";
  function_name = "handler";
  params = tt;
  context = record {
    job_id = "a";
    attempt = 1;
    enqueue_time = pos 3;
    queue_name = "q";
    deadline = some (pos 9);
    trace_context = none;
    correlation_context = none;
    worker_id = none;
  };
}

-- The handler leaves the ids out.
abbrev plain_outcome : Answer sample_platform
plain_outcome = record {
  job_id = none;
  request_id = none;
  status = OutcomeStatus.success;
  result = none;
  error = none;
  retry_after_seconds = none;
}

abbrev sample_registry : Registry sample_platform
sample_registry = ("handler", λ request. plain_outcome) ∷ []

abbrev outcome_of :
    Request sample_platform → Option (Handler sample_platform) → Answer sample_platform
outcome_of request none = plain_outcome
outcome_of request (some f) = f request

honest :
    (f : Handler sample_platform)
    → some (λ request. plain_outcome) ≡ some f
    → Honest sample_platform "a" "r" (f sample_request)
honest f e =
    let same : plain_outcome ≡ f sample_request = ap (outcome_of sample_request) e in
    subst (Honest sample_platform "a" "r") same (inl refl, inl refl)

execute_with_deadline-names_example :
    ((execute_with_deadline sample_platform
        (λ d. false)
        sample_registry
        sample_request
        in_time).job_id
      ≡ some "a")
    × ((execute_with_deadline sample_platform
          (λ d. false)
          sample_registry
          sample_request
          in_time).request_id
        ≡ some "r")
execute_with_deadline-names_example =
    execute_with_deadline-names sample_platform (λ d. false) sample_registry sample_request in_time
      honest

abbrev idle : Runtime sample_platform
idle = record {
  in_flight = [];
  job_index = [];
  connection_requests = λ c. [];
  completed = [];
  sent = [];
}

-- The request "r" is accepted, and its task runs.
abbrev busy : Runtime sample_platform
busy = track sample_platform 1 "a" "r" (accept sample_platform 1 sample_request idle).1

runs : Reach sample_platform idle busy
runs =
    Reach.and_then _ _ _
      (Reach.and_then _ _ _ (Reach.here idle) (Step.accept_request 1 sample_request idle))
      (Step.track_request 1 "a" "r" (accept sample_platform 1 sample_request idle).1)

Reach-Bounded_example : length (busy.connection_requests 1) ≤ 64
Reach-Bounded_example = Reach-Bounded sample_platform idle busy runs (λ c. omega arith) 1

close-leaks_example :
    get
      (close sample_platform 1 (
        track sample_platform 1 "a" "r" (
          finish sample_platform 1 "a" "r" plain_outcome
            (accept sample_platform 1 sample_request idle).1))).in_flight
      "r"
    ≡ some (record { job_id = "a"; connection = 1 })
close-leaks_example =
    close-leaks sample_platform 1 "a" "r" plain_outcome
      (accept sample_platform 1 sample_request idle).1

abbrev sample_cancel : CancelRequest
sample_cancel = record {
  protocol_version = "2";
  job_id = "a";
  request_id = some "r";
  hard_kill = false;
}

handle_cancel-once_example :
    let after = handle_cancel sample_platform sample_cancel busy in
    (after.sent ≡ (1, cancelled sample_platform "a" "r") ∷ [])
    × (get after.in_flight "r" ≡ none)
    × (contains "r" (after.connection_requests 1) ≡ false)
    × (handle_cancel sample_platform sample_cancel after ≡ after)
unfolding accept track
handle_cancel-once_example =
    handle_cancel-once sample_platform sample_cancel "r" (record { job_id = "a"; connection = 1 })
      busy refl refl refl refl
