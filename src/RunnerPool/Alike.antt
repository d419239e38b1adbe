-- ===== src/RunnerPool/Alike.antt =====
-- How the two clean-ups of rrq-rs/orchestrator/src/runner.rs after a timeout compare, and what they
-- spare.
use rrq.Prelude.{
  ℕ, String, Bool, true, false, Option, none, some, [], ◌∷◌, ◌==◌, ◌≡◌, refl, if◌then◌else◌, nat_eq,
  ◌&&◌, ◌||◌, inl, inr, Bool-cases, Option-cases, arith, ap, subst,
}
use rrq.Runner.Tables.{get, without}
use rrq.RunnerPool.Timeouts.{
  InFlightRequest, InFlight, Ending, answered, response_timeout, other_error, other_on, any_on,
  others, removed_others, finalize_execute_result, cleanup_worker_timeout,
}

other_on-any_on :
    (request_id : String) (socket : ℕ) (m : InFlight)
    → any_on socket (without m request_id) ≡ other_on request_id socket m
other_on-any_on request_id socket [] = refl
other_on-any_on request_id socket ((k, info) ∷ m) = elim (Bool-cases (k == request_id)) [
  | inl same ↦ rw same (other_on-any_on request_id socket m)
  | inr other ↦
      rw other (ap (λ b. nat_eq info.socket socket || b) (other_on-any_on request_id socket m))
]

others-removed :
    (request_id : String) (m : InFlight) (o : Option InFlightRequest)
    → removed_others (without m request_id) o ≡ others request_id m o
others-removed request_id m none = refl
others-removed request_id m (some info) = other_on-any_on request_id info.socket m

-- A worker's timeout with a cancel hint and a response timeout are cleaned up alike.
pub cleanup-finalize :
    (send_cancel_hints delivered : Bool) (request_id : String) (m : InFlight)
    → cleanup_worker_timeout true send_cancel_hints delivered request_id m
      ≡ finalize_execute_result send_cancel_hints delivered request_id response_timeout m
unfolding cleanup_worker_timeout finalize_execute_result
cleanup-finalize send_cancel_hints delivered request_id m =
    rw (others-removed request_id m (get m request_id)) refl

-- What a clean-up has terminated.
pub record Spares (request_id : String) (delivered : Bool) (m : InFlight) (socket : ℕ)
    : Type 0 where
  pub info : InFlightRequest
  pub registered : get m request_id ≡ some info
  pub here : info.socket ≡ socket
  pub alone : other_on request_id socket m ≡ true → delivered ≡ false

spared :
    (other hints delivered : Bool) (here socket : ℕ)
    → (if other && ((other || hints) && delivered) then none else some here) ≡ some socket
    → (here ≡ socket) × (other ≡ true → delivered ≡ false)
spared true true true here socket e = ground arith
spared true true false here socket e = ground arith
spared true false true here socket e = ground arith
spared true false false here socket e = ground arith
spared false hints delivered here socket e = ground arith

-- Whatever the ending, the request leaves the table of requests in flight and no other does. A
-- process is terminated only where a registered request on its socket has run out of time, and, if
-- another request is on that socket, only where the cancel hint was not delivered.
pub finalize-Spares :
    (send_cancel_hints delivered : Bool) (request_id : String) (ending : Ending) (m : InFlight)
    (socket : ℕ)
    → let done = finalize_execute_result send_cancel_hints delivered request_id ending m in
      (done.in_flight ≡ without m request_id)
      × (done.terminated_socket ≡ some socket
          → (ending ≡ response_timeout) × Spares request_id delivered m socket)
unfolding finalize_execute_result
finalize-Spares hints delivered request_id answered m socket = (refl, λ e. cc)
finalize-Spares hints delivered request_id other_error m socket = (refl, λ e. cc)
finalize-Spares hints delivered request_id response_timeout m socket =
    elim (Option-cases (get m request_id)) [
      | inl gone ↦ rw gone (refl, λ e. cc)
      | inr (info, found) ↦ rw found (
        refl,
        λ e.
            let kept =
              spared (other_on request_id info.socket m) hints delivered info.socket socket e in
            (
              refl,
              record {
                info = info;
                registered = found;
                here = kept.0;
                alone =
                    subst (λ (s : ℕ). other_on request_id s m ≡ true → delivered ≡ false) kept.0
                      kept.1;
              },
            ),
      )
    ]
