-- ===== src/RunnerPool/Connection/Once.antt =====
-- How often the requests of a connection of rrq-rs/orchestrator/src/runner.rs are answered, and which
-- answers a call of `execute` accepts.
use rrq.Prelude.{
  ℕ, ◌+◌, ◌≡◌, ◌∙◌, String, Option, none, some, List, [], ◌∷◌, ◌==◌, refl, if◌then◌else◌, nat_eq,
  ltb, arith, inl, inr, Bool-cases, ap, eq_iff, true,
}
use rrq.RunnerPool.Connection.{
  check_outcome, Answer, response, failure, dropped, withdrawn, Connection, take_waiter, answer,
  keep, insert_pending, remove_pending_request, fail_all, close_pending_with_error, Incoming,
  outcome, unexpected, closed_by_peer, read_failed, unnamed, read_incoming, Event, insert, remove,
  read, write_failed, step, run, opened,
}

-- How often a ticket waits, and how often it has been answered.
abbrev pub waiting : ℕ → List (String × ℕ) → ℕ
waiting t [] = 0
waiting t ((k, ticket) ∷ m) = (if nat_eq ticket t then 1 else 0) + waiting t m

abbrev pub answered : ℕ → List (ℕ × Answer) → ℕ
answered t [] = 0
answered t ((ticket, a) ∷ m) = (if nat_eq ticket t then 1 else 0) + answered t m

abbrev pub uses : ℕ → Connection → ℕ
uses t c = waiting t c.pending + answered t c.answers

-- How often a ticket has been given out.
abbrev pub issued : ℕ → Connection → ℕ
issued t c = if ltb t c.next_ticket then 1 else 0

abbrev counted : ℕ → Option ℕ × List (String × ℕ) → ℕ
counted t (none, rest) = waiting t rest
counted t (some ticket, rest) = (if nat_eq ticket t then 1 else 0) + waiting t rest

keep-counted :
    (t : ℕ) (k : String) (ticket : ℕ) (r : Option ℕ × List (String × ℕ))
    → counted t (keep (k, ticket) r) ≡ (if nat_eq ticket t then 1 else 0) + counted t r
keep-counted t k ticket (none, rest) = refl
keep-counted t k ticket (some other, rest) = omega arith

take_waiter-counted :
    (t : ℕ) (id : String) (m : List (String × ℕ)) → counted t (take_waiter id m) ≡ waiting t m
unfolding take_waiter
take_waiter-counted t id [] = refl
take_waiter-counted t id ((k, ticket) ∷ m) = elim (Bool-cases (k == id)) [
  | inl here ↦ rw here refl
  | inr there ↦
      rw there
        (keep-counted t k ticket (take_waiter id m) ∙ omega (arith, take_waiter-counted t id m))
]

answer-uses :
    (t : ℕ) (a : Answer) (r : Option ℕ × List (String × ℕ)) (c : Connection)
    → uses t (answer a r c) ≡ counted t r + answered t c.answers
answer-uses t a (none, rest) c = refl
answer-uses t a (some ticket, rest) c = omega arith

fail_all-answered :
    (t : ℕ) (message : String) (m : List (String × ℕ)) (answers : List (ℕ × Answer))
    → answered t (fail_all message m answers) ≡ waiting t m + answered t answers
fail_all-answered t message [] answers = omega arith
fail_all-answered t message ((k, ticket) ∷ m) answers =
    omega (arith, fail_all-answered t message m answers)

-- Each ticket that has been given out waits or has been answered, once, and no other does.
abbrev pub Counts : ℕ → Connection → Type 0
Counts t c = uses t c ≡ issued t c

issued-answer :
    (t : ℕ) (a : Answer) (r : Option ℕ × List (String × ℕ)) (c : Connection)
    → issued t (answer a r c) ≡ issued t c
issued-answer t a (none, rest) c = refl
issued-answer t a (some ticket, rest) c = refl

answer-Counts :
    (t : ℕ) (a : Answer) (id : String) (c : Connection)
    → Counts t c
    → Counts t (answer a (take_waiter id c.pending) c)
answer-Counts t a id c h = omega (
  arith,
  answer-uses t a (take_waiter id c.pending) c,
  take_waiter-counted t id c.pending,
  issued-answer t a (take_waiter id c.pending) c,
)

insert-Counts : (t : ℕ) (id : String) (c : Connection) → Counts t c → Counts t (insert_pending id c)
unfolding insert_pending
insert-Counts t id c h =
    ground
      (arith, answer-Counts t dropped id c h, issued-answer t dropped (take_waiter id c.pending) c)

close-Counts :
    (t : ℕ) (message : String) (c : Connection)
    → Counts t c
    → Counts t (close_pending_with_error message c)
unfolding close_pending_with_error
close-Counts t message c h = omega (arith, fail_all-answered t message c.pending c.answers)

unnamed-Counts :
    (t : ℕ) (m : List (String × ℕ)) (c : Connection)
    → c.pending ≡ m
    → Counts t c
    → Counts t (unnamed m c).0
unnamed-Counts t [] c e h = h
unnamed-Counts t ((k, ticket) ∷ []) c e h = omega (arith, ap (waiting t) e)
unnamed-Counts t (x ∷ y ∷ m) c e h = close-Counts t _ c h

read-Counts :
    (t : ℕ) (incoming : Incoming) (c : Connection)
    → Counts t c
    → Counts t (read_incoming incoming c).0
unfolding read_incoming
read-Counts t (outcome none job_id) c h = unnamed-Counts t c.pending c refl h
read-Counts t (outcome (some id) job_id) c h = answer-Counts t (response (some id) job_id) id c h
read-Counts t unexpected c h = h
read-Counts t closed_by_peer c h = close-Counts t _ c h
read-Counts t (read_failed e) c h = close-Counts t _ c h

step-Counts : (t : ℕ) (e : Event) (c : Connection) → Counts t c → Counts t (step e c)
unfolding step remove_pending_request
step-Counts t (insert id) c h = insert-Counts t id c h
step-Counts t (remove id) c h = answer-Counts t withdrawn id c h
step-Counts t (write_failed e) c h = close-Counts t e c h
step-Counts t (read incoming) c h = read-Counts t incoming c h

run-Counts : (t : ℕ) (es : List Event) (c : Connection) → Counts t c → Counts t (run es c)
unfolding run
run-Counts t [] c h = h
run-Counts t (e ∷ es) c h = run-Counts t es (step e c) (step-Counts t e c h)

-- From a connection that has just been opened, whatever its events and their order: each call that
-- has registered its request still waits or has been told its end, exactly once, and nothing else is
-- told.
pub run-opened_once : (t : ℕ) (es : List Event) → uses t (run es opened) ≡ issued t (run es opened)
run-opened_once t es = run-Counts t es opened (ground arith)

-- What a call accepts is a response that names the call's own job and request.
check_outcome-own :
    (job_id request_id : String) (a : Answer) (o : Option String × Option String)
    → check_outcome job_id request_id a ≡ some o
    → a ≡ response (some request_id) (some job_id)
unfolding check_outcome
check_outcome-own job_id request_id (response (some r) (some j)) o h =
    let own_job : (j == job_id) ≡ true = ground arith in
    let own_request : (r == request_id) ≡ true = ground arith in
    rw ((eq_iff j job_id).0 own_job, (eq_iff r request_id).0 own_request) refl
check_outcome-own job_id request_id (response none (some j)) o h = ground arith
check_outcome-own job_id request_id (response r none) o h = ground arith
check_outcome-own job_id request_id (failure m) o h = ground arith
check_outcome-own job_id request_id dropped o h = ground arith
check_outcome-own job_id request_id withdrawn o h = ground arith
