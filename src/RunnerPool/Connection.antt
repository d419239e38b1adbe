-- ===== src/RunnerPool/Connection.antt =====
-- `PersistentProcessConnection` of rrq-rs/orchestrator/src/runner.rs: the requests of a connection
-- that wait for their outcomes. Each function is what is done under the lock of the table; a ticket
-- stands for the receiver of one call of `execute`. The codec of the messages and the channel to the
-- writer are left out.
pub mod Once
use rrq.Prelude.{
  ℕ, suc, ◌+◌, String, Bool, true, false, Option, none, some, List, [], ◌∷◌, ◌++◌, ◌==◌,
  if◌then◌else◌,
}

-- What a receiver is told: a response, with its ids, or an error; or its sender was dropped, or its
-- call has taken the request back.
pub data Answer : Type 0 where
  response : Option String → Option String → Answer
  failure : String → Answer
  dropped withdrawn : Answer

pub record Connection : Type 0 where
  pub pending : List (String × ℕ)
  pub closed : Bool
  pub answers : List (ℕ × Answer)
  pub next_ticket : ℕ

-- `pending.remove(id)`.
abbrev pub keep : String × ℕ → Option ℕ × List (String × ℕ) → Option ℕ × List (String × ℕ)
keep entry (found, rest) = (found, entry ∷ rest)

unfoldable pub take_waiter : String → List (String × ℕ) → Option ℕ × List (String × ℕ)
take_waiter id [] = (none, [])
take_waiter id ((k, ticket) ∷ m) =
    let rest = take_waiter id m in if k == id then (some ticket, m) else keep (k, ticket) rest

-- A sender, if it is there, is used.
abbrev pub answer : Answer → Option ℕ × List (String × ℕ) → Connection → Connection
answer a (none, rest) c = record c { pending = rest }
answer a (some ticket, rest) c = record c { pending = rest; answers = (ticket, a) ∷ c.answers }

-- `pending.insert(request_id, sender)` of `execute`: a sender that it replaces is dropped.
unfoldable pub insert_pending : String → Connection → Connection
insert_pending id c =
    let c' = answer dropped (take_waiter id c.pending) c in
    record c' { pending = (id, c.next_ticket) ∷ c'.pending; next_ticket = suc c.next_ticket }

-- `remove_pending_request`, and the removals of `execute` where the connection has been closed, the
-- request is not sent or the response does not come in time.
unfoldable pub remove_pending_request : String → Connection → Connection
remove_pending_request id c = answer withdrawn (take_waiter id c.pending) c

abbrev pub fail_all : String → List (String × ℕ) → List (ℕ × Answer) → List (ℕ × Answer)
fail_all message [] answers = answers
fail_all message ((k, ticket) ∷ m) answers = (ticket, failure message) ∷ fail_all message m answers

unfoldable pub close_pending_with_error : String → Connection → Connection
close_pending_with_error message c = record c {
  closed = true;
  pending = [];
  answers = fail_all message c.pending c.answers;
}

-- What the reader meets.
pub data Incoming : Type 0 where
  outcome : Option String → Option String → Incoming
  unexpected closed_by_peer : Incoming
  read_failed : String → Incoming

-- An outcome without a request id.
abbrev pub unnamed : List (String × ℕ) → Connection → Connection × Bool
unnamed [] c = (c, true)
unnamed ((k, ticket) ∷ []) c = (
  record c {
    pending = [];
    answers = (ticket, failure "runner outcome missing request_id") ∷ c.answers;
  },
  true,
)
unnamed (x ∷ y ∷ m) c =
    (close_pending_with_error "runner outcome missing request_id with pending requests" c, false)

-- The reader's turn: whether it goes on. An outcome has a request id and a job id.
unfoldable pub read_incoming : Incoming → Connection → Connection × Bool
unfolding close_pending_with_error
read_incoming (outcome none job_id) c = unnamed c.pending c
read_incoming (outcome (some id) job_id) c =
    (answer (response (some id) job_id) (take_waiter id c.pending) c, true)
read_incoming unexpected c = (c, true)
read_incoming closed_by_peer c = (close_pending_with_error "runner connection closed" c, false)
read_incoming (read_failed e) c =
    (close_pending_with_error "runner connection read failed" c, false)

-- The checks of `execute` on what it was told: `none` is an error.
abbrev pub is_same : Option String → String → Bool
is_same none s = false
is_same (some t) s = t == s

unfoldable pub check_outcome : String → String → Answer → Option (Option String × Option String)
check_outcome job_id request_id (response outcome_request_id outcome_job_id) =
    if is_same outcome_job_id job_id
    then (if is_same outcome_request_id request_id
        then some (outcome_request_id, outcome_job_id)
        else none)
    else none
check_outcome job_id request_id _ = none

-- What the calls of `execute`, the reader, the writer and the clean-ups do, in any order.
pub data Event : Type 0 where
  insert remove : String → Event
  read : Incoming → Event
  write_failed : String → Event

unfoldable pub step : Event → Connection → Connection
unfolding insert_pending remove_pending_request read_incoming close_pending_with_error
step (insert id) c = insert_pending id c
step (remove id) c = remove_pending_request id c
step (read incoming) c = (read_incoming incoming c).0
step (write_failed e) c = close_pending_with_error e c

unfoldable pub run : List Event → Connection → Connection
unfolding step
run [] c = c
run (e ∷ es) c = run es (step e c)

abbrev pub opened : Connection
opened = record { pending = []; closed = false; answers = []; next_ticket = 0 }
