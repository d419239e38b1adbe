-- ===== src/Runner/Tables/Cancel.antt =====
-- What `handle_cancel` of rrq-rs/runner/src/runtime.rs does with one request.
use rrq.Prelude.{String, true, false, none, some, ◌∷◌, ◌≡◌, ◌==◌, refl}
use rrq.Platform.{Platform}
use rrq.Protocol.{protocol_version, CancelRequest}
use rrq.Runner.Tables.{InFlightTask, contains, remove, get, Runtime, cancelled, handle_cancel}
use rrq.Runner.Tables.Maps.{contains-remove, set_requests-here, get-without_same}

module _ (p : Platform) where
  -- Cancelling a request whose task runs answers it as cancelled on its own connection, once, and
  -- takes it out of `in_flight` and of its connection's requests; a second cancellation changes
  -- nothing.
  pub handle_cancel-once :
      (payload : CancelRequest) (id : String) (t : InFlightTask) (st : Runtime p)
      → (payload.protocol_version == protocol_version) ≡ true
      → payload.request_id ≡ some id
      → get st.in_flight id ≡ some t
      → contains id st.completed ≡ false
      → let after = handle_cancel p payload st in
        (after.sent ≡ (t.connection, cancelled p payload.job_id id) ∷ st.sent)
        × (get after.in_flight id ≡ none)
        × (contains id (after.connection_requests t.connection) ≡ false)
        × (handle_cancel p payload after ≡ after)
  unfolding handle_cancel
  handle_cancel-once payload id t st version asked there runs =
      rw (version, asked, there, runs, handle_cancel)
        (
          refl,
          get-without_same st.in_flight id,
          rw
              (set_requests-here st.connection_requests t.connection
                (remove id (st.connection_requests t.connection)))
              (contains-remove id (st.connection_requests t.connection)),
          rw (get-without_same st.in_flight id) refl,
        )
