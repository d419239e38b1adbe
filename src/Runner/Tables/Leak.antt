-- ===== src/Runner/Tables/Leak.antt =====
-- A task that ends before it is tracked: rrq-rs/runner/src/runtime.rs.
use rrq.Prelude.{ℕ, String, false, Option, none, some, List, [], ◌∷◌, ◌≡◌, ◌==◌, refl, arith, ◌∙◌}
use rrq.Platform.{Platform}
use rrq.Runner.Execute.{Answer}
use rrq.Runner.Tables.{
  InFlightTask, contains, remove, get, without, Runtime, set_requests, track, finish, abort_task,
  or_empty, abort_all, close,
}
use rrq.Runner.Tables.Maps.{
  contains-remove, get-without, get-put, set_requests-here, get-without_same, drop_entry-gone,
}

module _ (p : Platform) where
  abort_task-keeps :
      (x id : String) (t : InFlightTask) (o : Option InFlightTask) (st : Runtime p)
      → (id == x) ≡ false
      → get st.in_flight id ≡ some t
      → get (abort_task p x o st).in_flight id ≡ some t
  abort_task-keeps x id t none st h e = e
  abort_task-keeps x id t (some o) st h e = get-without st.in_flight x id h ∙ e

  abort_all-keeps :
      (ids : List String) (id : String) (t : InFlightTask) (st : Runtime p)
      → contains id ids ≡ false
      → get st.in_flight id ≡ some t
      → get (abort_all p ids st).in_flight id ≡ some t
  abort_all-keeps [] id t st h e = e
  abort_all-keeps (x ∷ ids) id t st h e =
      abort_all-keeps ids id t _ (grind arith)
        (abort_task-keeps x id t (get st.in_flight x) st (grind arith) e)

  -- If the task of a request ends before the connection's loop has tracked it, the end of the
  -- connection leaves the request in `in_flight`, whatever its outcome and the other requests.
  pub close-leaks :
      (c : ℕ) (job_id id : String) (o : Answer p) (st : Runtime p)
      → get (close p c (track p c job_id id (finish p c job_id id o st))).in_flight id
        ≡ some (record { job_id = job_id; connection = c })
  unfolding close track finish
  close-leaks c job_id id o st =
      let tracked = track p c job_id id (finish p c job_id id o st) in
      abort_all-keeps (tracked.connection_requests c) id
        (record { job_id = job_id; connection = c })
        (record tracked { connection_requests = set_requests tracked.connection_requests c [] })
        (rw (set_requests-here st.connection_requests c (remove id (st.connection_requests c)))
          (contains-remove id (st.connection_requests c)))
        (get-put (without st.in_flight id) id _)

  -- A task that ends after it was tracked leaves nothing of its request: not in `in_flight`, not in
  -- the index under its job, and not among the connection's requests.
  pub finish_clears :
      (c : ℕ) (job_id id : String) (o : Answer p) (st : Runtime p)
      → let after = finish p c job_id id o (track p c job_id id st) in
        (get after.in_flight id ≡ none)
        × (contains id (or_empty (get after.job_index job_id)) ≡ false)
        × (contains id (after.connection_requests c) ≡ false)
  unfolding track finish
  finish_clears c job_id id o st =
      let tracked = track p c job_id id st in
      (
        get-without_same tracked.in_flight id,
        drop_entry-gone tracked.job_index job_id id (get tracked.job_index job_id) refl,
        rw (set_requests-here st.connection_requests c (remove id (st.connection_requests c)))
            (contains-remove id (st.connection_requests c)),
      )
