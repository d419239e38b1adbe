-- ===== src/Runner/Tables/Bound.antt =====
-- How many requests of one connection a runner has in flight: rrq-rs/runner/src/runtime.rs.
use rrq.Prelude.{
  ℕ, suc, ◌≤◌, String, Option, none, some, List, [], ◌∷◌, inl, inr, arith, leb, not, ◌==◌, nat_eq,
  length, Bool-cases,
}
use rrq.Platform.{Platform}
use rrq.Protocol.{protocol_version, CancelRequest}
use rrq.Runner.Execute.{Request, Answer}
use rrq.Runner.Tables.{
  InFlightTask, contains, insert, remove, get, Runtime, set_requests, accept, track, finish,
  cancel_task, cancel_all, cancel_ids, handle_cancel, abort_task, abort_all, close,
}

length-insert : (x : String) (xs : List String) → length (insert x xs) ≤ suc (length xs)
length-insert x xs = ground arith

length-remove : (x : String) (xs : List String) → length (remove x xs) ≤ length xs
length-remove x [] = omega arith
length-remove x (y ∷ ys) = let ih = length-remove x ys in ground arith

module _ (p : Platform) where
  -- What the tasks of the runtime do, one at a time.
  pub data Step : Runtime p → Runtime p → Type 0 where
    accept_request : (c : ℕ) (r : Request p) (st : Runtime p) → Step st (accept p c r st).1
    track_request : (c : ℕ) (job_id id : String) (st : Runtime p) → Step st (track p c job_id id st)
    finish_request :
        (c : ℕ) (job_id id : String) (o : Answer p) (st : Runtime p)
        → Step st (finish p c job_id id o st)
    cancel_request :
        (payload : CancelRequest) (st : Runtime p) → Step st (handle_cancel p payload st)
    close_connection : (c : ℕ) (st : Runtime p) → Step st (close p c st)

  pub data Reach : Runtime p → Runtime p → Type 0 where
    here : (st : Runtime p) → Reach st st
    and_then : (a b c : Runtime p) → Reach a b → Step b c → Reach a c

  abbrev pub Bounded : (ℕ → List String) → Type 0
  Bounded requests = (c : ℕ) → length (requests c) ≤ 64

  Bounded-set :
      (requests : ℕ → List String) (c : ℕ) (xs : List String)
      → Bounded requests
      → length xs ≤ 64
      → Bounded (set_requests requests c xs)
  Bounded-set requests c xs b h d = elim (Bool-cases (nat_eq c d)) [
    | inl e ↦ rw (e) h
    | inr e ↦ rw (e) (b d)
  ]

  Bounded-remove :
      (requests : ℕ → List String) (c : ℕ) (x : String)
      → Bounded requests
      → Bounded (set_requests requests c (remove x (requests c)))
  Bounded-remove requests c x b =
      Bounded-set requests c _ b
        (let l = length-remove x (requests c) in let h = b c in omega arith)

  cancel_task-Bounded :
      (job_id id : String) (t : Option InFlightTask) (st : Runtime p)
      → Bounded st.connection_requests
      → Bounded (cancel_task p job_id id t st).connection_requests
  cancel_task-Bounded job_id id none st b = b
  cancel_task-Bounded job_id id (some t) st b = elim (Bool-cases (contains id st.completed)) [
    | inl e ↦ rw (e) b
    | inr e ↦ rw (e) (Bounded-remove st.connection_requests t.connection id b)
  ]

  cancel_all-Bounded :
      (job_id : String) (ids : List String) (st : Runtime p)
      → Bounded st.connection_requests
      → Bounded (cancel_all p job_id ids st).connection_requests
  cancel_all-Bounded job_id [] st b = b
  cancel_all-Bounded job_id (id ∷ ids) st b =
      cancel_all-Bounded job_id ids _ (cancel_task-Bounded job_id id (get st.in_flight id) st b)

  abort_task-Bounded :
      (id : String) (t : Option InFlightTask) (st : Runtime p)
      → Bounded st.connection_requests
      → Bounded (abort_task p id t st).connection_requests
  abort_task-Bounded id none st b = b
  abort_task-Bounded id (some t) st b = b

  abort_all-Bounded :
      (ids : List String) (st : Runtime p)
      → Bounded st.connection_requests
      → Bounded (abort_all p ids st).connection_requests
  abort_all-Bounded [] st b = b
  abort_all-Bounded (id ∷ ids) st b =
      abort_all-Bounded ids _ (abort_task-Bounded id (get st.in_flight id) st b)

  accept-Bounded :
      (c : ℕ) (r : Request p) (st : Runtime p)
      → Bounded st.connection_requests
      → Bounded (accept p c r st).1.connection_requests
  unfolding accept
  accept-Bounded c r st b = elim (Bool-cases (not (r.protocol_version == protocol_version))) [
    | inl e ↦ rw (e) b
    | inr e ↦ elim (Bool-cases (leb 64 (length (st.connection_requests c)))) [
      | inl f ↦ rw (e, f) b
      | inr f ↦
          rw (e, f)
            (Bounded-set st.connection_requests c _ b
              (let l = length-insert r.request_id (st.connection_requests c) in ground arith))
    ]
  ]

  Step-Bounded :
      (a b : Runtime p) → Step a b → Bounded a.connection_requests → Bounded b.connection_requests
  unfolding track finish handle_cancel close
  Step-Bounded _ _ (accept_request c r st) b = accept-Bounded c r st b
  Step-Bounded _ _ (track_request c job_id id st) b = b
  Step-Bounded _ _ (finish_request c job_id id o st) b =
      Bounded-remove st.connection_requests c id b
  Step-Bounded _ _ (cancel_request payload st) b =
      elim (Bool-cases (payload.protocol_version == protocol_version)) [
        | inl e ↦
            rw (e)
              (cancel_all-Bounded payload.job_id (cancel_ids p payload payload.request_id st) st b)
        | inr e ↦ rw (e) b
      ]
  Step-Bounded _ _ (close_connection c st) b =
      abort_all-Bounded (st.connection_requests c) _
        (Bounded-set st.connection_requests c [] b (omega arith))

  -- From tables in which no connection has more than 64 requests, only such tables are reached,
  -- however the requests, the ends of their tasks, the cancellations and the ends of connections
  -- follow one another.
  pub Reach-Bounded :
      (a b : Runtime p)
      → Reach a b
      → Bounded a.connection_requests
      → (c : ℕ) → length (b.connection_requests c) ≤ 64
  Reach-Bounded _ _ (here st) b = b
  Reach-Bounded _ _ (and_then x y z path step) b = Step-Bounded y z step (Reach-Bounded x y path b)
