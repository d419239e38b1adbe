-- ===== src/RunnerPool/Timeouts.antt =====
-- The requests of a `SocketRunner` of rrq-rs/orchestrator/src/runner.rs that are in flight, and what
-- becomes of a request that ends or runs out of time. Whether a cancel hint is delivered is the
-- environment's choice; log lines are left out.
use rrq.Prelude.{
  ℕ, String, Bool, false, Option, none, some, List, [], ◌∷◌, ◌==◌, if◌then◌else◌, nat_eq, not, ◌&&◌,
  ◌||◌,
}
use rrq.Runner.Tables.{get, without}
use rrq.RunnerPool.{SocketProcess, terminated}

pub record InFlightRequest : Type 0 where
  pub job_id : String
  pub socket : ℕ

abbrev pub InFlight : Type 0
InFlight = List (String × InFlightRequest)

-- How `PersistentProcessConnection::execute` ends, as `finalize_execute_result` tells it apart.
pub data Ending : Type 0 where
  answered response_timeout other_error : Ending

-- What the clean-up does: the socket to which a cancel hint was tried, the one from whose connection
-- the pending request was removed, and the one whose process was terminated.
pub record Cleanup : Type 0 where
  pub in_flight : InFlight
  pub cancel_tried : Option ℕ
  pub pending_removed : Option ℕ
  pub terminated_socket : Option ℕ

-- `in_flight.iter().any(…)`: another request on the socket.
abbrev pub other_on : String → ℕ → InFlight → Bool
other_on request_id socket [] = false
other_on request_id socket ((k, info) ∷ m) =
    (not (k == request_id) && nat_eq info.socket socket) || other_on request_id socket m

-- `in_flight.values().any(…)`.
abbrev pub any_on : ℕ → InFlight → Bool
any_on socket [] = false
any_on socket ((k, info) ∷ m) = nat_eq info.socket socket || any_on socket m

-- The hint, the pending request and the process, for a request that has run out of time.
abbrev pub clean_up : Bool → Bool → Bool → InFlight → Option InFlightRequest → Cleanup
clean_up try_cancel delivered has_other rest none = record {
  in_flight = rest;
  cancel_tried = none;
  pending_removed = none;
  terminated_socket = none;
}
clean_up try_cancel delivered has_other rest (some info) = record {
  in_flight = rest;
  cancel_tried = if has_other || try_cancel then some info.socket else none;
  pending_removed = some info.socket;
  terminated_socket =
      if has_other && ((has_other || try_cancel) && delivered) then none else some info.socket;
}

abbrev pub others : String → InFlight → Option InFlightRequest → Bool
others request_id m none = false
others request_id m (some info) = other_on request_id info.socket m

abbrev pub removed_others : InFlight → Option InFlightRequest → Bool
removed_others rest none = false
removed_others rest (some info) = any_on info.socket rest

-- `finalize_execute_result` up to the process of the request.
unfoldable pub finalize_execute_result : Bool → Bool → String → Ending → InFlight → Cleanup
finalize_execute_result send_cancel_hints delivered request_id response_timeout m =
    clean_up send_cancel_hints delivered (others request_id m (get m request_id))
      (without m request_id) (get m request_id)
finalize_execute_result send_cancel_hints delivered request_id _ m = record {
  in_flight = without m request_id;
  cancel_tried = none;
  pending_removed = none;
  terminated_socket = none;
}

-- The end of `finalize_execute_result`: whether the request's process is started anew.
unfoldable pub respawns : Ending → Option Bool → Bool
respawns other_error (some alive) = not alive
respawns _ child = false

-- `cleanup_worker_timeout_with_permit_held`.
unfoldable pub cleanup_worker_timeout : Bool → Bool → Bool → String → InFlight → Cleanup
cleanup_worker_timeout send_cancel_hint send_cancel_hints delivered request_id m =
    clean_up (send_cancel_hint && send_cancel_hints) delivered
      (removed_others (without m request_id) (get m request_id)) (without m request_id)
      (get m request_id)

-- The request id of a job: the first of its requests.
abbrev pub request_of : String → InFlight → Option String
request_of job_id [] = none
request_of job_id ((k, info) ∷ m) =
    let rest = request_of job_id m in if info.job_id == job_id then some k else rest

abbrev pub target_of : Option String → InFlight → Option (String × InFlightRequest)
target_of none m = none
target_of (some id) m = elim (get m id) [ none ↦ none | some info ↦ some (id, info) ]

unfoldable pub resolve_in_flight_target :
    String → Option String → InFlight → Option (String × InFlightRequest)
resolve_in_flight_target job_id (some id) m = target_of (some id) m
resolve_in_flight_target job_id none m = target_of (request_of job_id m) m

abbrev pub cancelled_target : Bool → Option (String × InFlightRequest) → InFlight → InFlight
cancelled_target delivered none m = m
cancelled_target delivered (some (id, info)) m = if delivered then without m id else m

-- `cancel`: the requests in flight after it; the socket of the hint is the target's.
unfoldable pub cancel_request : Bool → String → Option String → InFlight → InFlight
cancel_request delivered job_id request_id m =
    cancelled_target delivered (resolve_in_flight_target job_id request_id m) m

abbrev pub timed_out_target : Bool → Option (String × InFlightRequest) → InFlight → Cleanup
timed_out_target hint none m = record {
  in_flight = m;
  cancel_tried = none;
  pending_removed = none;
  terminated_socket = none;
}
timed_out_target hint (some (id, info)) m = record {
  in_flight = without m id;
  cancel_tried = if hint then some info.socket else none;
  pending_removed = some info.socket;
  terminated_socket = some info.socket;
}

unfoldable pub handle_timeout : Bool → Bool → String → Option String → InFlight → Cleanup
handle_timeout send_cancel_hint send_cancel_hints job_id request_id m =
    timed_out_target (send_cancel_hint && send_cancel_hints)
      (resolve_in_flight_target job_id request_id m) m

-- `terminate_process_for_socket`: the first process on the socket.
unfoldable pub terminate_process_for_socket : ℕ → List SocketProcess → List SocketProcess
terminate_process_for_socket socket [] = []
terminate_process_for_socket socket (proc ∷ procs) =
    if nat_eq proc.socket socket
    then terminated proc ∷ procs
    else proc ∷ terminate_process_for_socket socket procs
