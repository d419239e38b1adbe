-- ===== src/Runner/Tables.antt =====
-- The tables of `handle_connection` and `handle_cancel` in rrq-rs/runner/src/runtime.rs. Each
-- function is what is done under one lock, or a sequence of those that the code runs in one task;
-- the spawned task of a request and the connection's loop run in any order.
pub mod Bound
pub mod Maps
pub mod Leak
pub mod Cancel
use rrq.Prelude.{
  ℕ, String, Bool, true, false, Option, none, some, List, [], ◌∷◌, ◌++◌, ◌==◌, nat_eq, leb, not,
  ◌||◌, if◌then◌else◌, length,
}
use rrq.Platform.{Platform}
use rrq.Protocol.{
  protocol_version, CancelRequest, OutcomeStatus, RunnerMessage, request, response, cancel,
}
use rrq.Protocol.Outcome.{error}
use rrq.Runner.Execute.{Request, Answer}

-- `InFlightTask`; the connection stands for its channel and its set of requests.
pub record InFlightTask : Type 0 where
  pub job_id : String
  pub connection : ℕ

-- `HashSet::insert`, `HashSet::remove`.
abbrev pub contains : String → List String → Bool
contains x [] = false
contains x (y ∷ ys) = x == y || contains x ys

abbrev pub insert : String → List String → List String
insert x xs = if contains x xs then xs else x ∷ xs

abbrev pub remove : String → List String → List String
remove x [] = []
remove x (y ∷ ys) = let rest = remove x ys in if x == y then rest else y ∷ rest

-- `HashMap::get`, `HashMap::insert` and `HashMap::remove`.
abbrev pub get : {V : Type 0} → List (String × V) → String → Option V
get [] key = none
get ((k, v) ∷ m) key = let rest = get m key in if k == key then some v else rest

abbrev pub without : {V : Type 0} → List (String × V) → String → List (String × V)
without [] key = []
without ((k, v) ∷ m) key = let rest = without m key in if k == key then rest else (k, v) ∷ rest

abbrev pub put : {V : Type 0} → List (String × V) → String → V → List (String × V)
put m key v = (key, v) ∷ without m key

-- The tables that the connections share, the requests of each connection, the tasks that have set
-- `completed`, and what was sent on the channel of each connection, the last first.
pub record Runtime (p : Platform) : Type 0 where
  pub in_flight : List (String × InFlightTask)
  pub job_index : List (String × List String)
  pub connection_requests : ℕ → List String
  pub completed : List String
  pub sent : List (ℕ × Answer p)

abbrev pub set_requests : (ℕ → List String) → ℕ → List String → ℕ → List String
set_requests requests c xs d = if nat_eq c d then xs else requests d

abbrev pub or_empty : Option (List String) → List String
or_empty none = []
or_empty (some ids) = ids

-- What is left of a job's requests; an empty set leaves the index.
abbrev pub keep_entry :
    List (String × List String) → String → List String → List (String × List String)
keep_entry index job_id [] = without index job_id
keep_entry index job_id (x ∷ xs) = put index job_id (x ∷ xs)

abbrev pub drop_entry :
    List (String × List String)
    → String
    → String
    → Option (List String)
    → List (String × List String)
drop_entry index job_id request_id none = index
drop_entry index job_id request_id (some entries) =
    keep_entry index job_id (remove request_id entries)

abbrev pub Message : Platform → Type 0
Message p =
    RunnerMessage p.codec.Json p.codec.Params p.codec.Context p.codec.Time p.redis.floats.F64

module _ (p : Platform) where
  abbrev pub send : ℕ → Answer p → Runtime p → Runtime p
  send c outcome st = record st { sent = (c, outcome) ∷ st.sent }

  -- The loop's part for a request before the task is spawned: whether it is spawned.
  unfoldable pub accept : ℕ → Request p → Runtime p → Bool × Runtime p
  accept c payload st =
      if not (payload.protocol_version == protocol_version)
      then (
        false,
        send c (error payload.job_id payload.request_id "Unsupported protocol version") st,
      )
      else if leb 64 (length (st.connection_requests c))
      then (
        false,
        send c (error payload.job_id payload.request_id "Runner busy: too many in-flight requests")
            st,
      )
      else (
        true,
        record st {
          connection_requests =
              set_requests st.connection_requests c
                (insert payload.request_id (st.connection_requests c));
        },
      )

  -- The loop's part after the task is spawned.
  unfoldable pub track : ℕ → String → String → Runtime p → Runtime p
  track c job_id request_id st = record st {
    in_flight = put st.in_flight request_id (record { job_id = job_id; connection = c });
    job_index = put st.job_index job_id (insert request_id (or_empty (get st.job_index job_id)));
  }

  abbrev pub drop_index : String → String → Runtime p → Runtime p
  drop_index job_id request_id st = record st {
    job_index = drop_entry st.job_index job_id request_id (get st.job_index job_id);
  }

  -- The task, once its handler has answered.
  unfoldable pub finish : ℕ → String → String → Answer p → Runtime p → Runtime p
  finish c job_id request_id outcome st =
      let answered = send c outcome (record st { completed = request_id ∷ st.completed }) in
      let dropped =
        drop_index job_id request_id
          (record answered { in_flight = without answered.in_flight request_id }) in
      record dropped {
        connection_requests =
            set_requests dropped.connection_requests c
              (remove request_id (dropped.connection_requests c));
      }

  abbrev pub cancelled : String → String → Answer p
  cancelled job_id request_id = record {
    job_id = some job_id;
    request_id = some request_id;
    status = OutcomeStatus.error;
    result = none;
    error = some (record {
      message = "Job cancelled";
      error_type = some "cancelled";
      code = none;
      details = none;
    });
    retry_after_seconds = none;
  }

  abbrev pub cancel_task : String → String → Option InFlightTask → Runtime p → Runtime p
  cancel_task job_id request_id none st = st
  cancel_task job_id request_id (some task) st =
      if contains request_id st.completed
      then st
      else (let c = task.connection in
          drop_index task.job_id request_id (
            send c (cancelled job_id request_id) (record st {
              in_flight = without st.in_flight request_id;
              connection_requests =
                  set_requests st.connection_requests c
                    (remove request_id (st.connection_requests c));
            })))

  abbrev pub cancel_all : String → List String → Runtime p → Runtime p
  cancel_all job_id [] st = st
  cancel_all job_id (id ∷ ids) st =
      cancel_all job_id ids (cancel_task job_id id (get st.in_flight id) st)

  abbrev pub cancel_ids : CancelRequest → Option String → Runtime p → List String
  cancel_ids payload (some request_id) st = request_id ∷ []
  cancel_ids payload none st = or_empty (get st.job_index payload.job_id)

  unfoldable pub handle_cancel : CancelRequest → Runtime p → Runtime p
  handle_cancel payload st =
      if payload.protocol_version == protocol_version
      then cancel_all payload.job_id (cancel_ids payload payload.request_id st) st
      else st

  abbrev pub abort_task : String → Option InFlightTask → Runtime p → Runtime p
  abort_task request_id none st = st
  abort_task request_id (some task) st =
      drop_index task.job_id request_id (record st { in_flight = without st.in_flight request_id })

  abbrev pub abort_all : List String → Runtime p → Runtime p
  abort_all [] st = st
  abort_all (id ∷ ids) st = abort_all ids (abort_task id (get st.in_flight id) st)

  -- The end of a connection.
  unfoldable pub close : ℕ → Runtime p → Runtime p
  close c st =
      abort_all (st.connection_requests c)
        (record st { connection_requests = set_requests st.connection_requests c [] })

  abbrev pub unexpected : Answer p
  unexpected = record {
    job_id = some "unknown";
    request_id = none;
    status = OutcomeStatus.error;
    result = none;
    error = some (record {
      message = "unexpected response message";
      error_type = none;
      code = none;
      details = none;
    });
    retry_after_seconds = none;
  }

  abbrev pub track_if : ℕ → Request p → Bool × Runtime p → Runtime p
  track_if c payload (true, st) = track c payload.job_id payload.request_id st
  track_if c payload (false, st) = st

  -- One turn of the loop, where the task of the request does not end within it.
  unfoldable pub handle_message : ℕ → Message p → Runtime p → Runtime p
  handle_message c (request payload) st = track_if c payload (accept c payload st)
  handle_message c (cancel payload) st = handle_cancel payload st
  handle_message c (response payload) st = send c unexpected st
