-- ===== src/Worker/Poll.antt =====
-- `poll_for_jobs` of rrq-rs/orchestrator/src/worker.rs: the worker asks its queues for ready jobs in
-- two passes, and starts or gives back each job that it claims. The spawned task itself is
-- Worker/Execute; here its start is the entries in the tables of running jobs and of abort handles.
-- Spans, metrics and log lines are left out.
pub mod Bounds
pub mod Owned
pub mod Rotation
use rrq.Prelude.{
  ℕ, zero, suc, ◌+◌, ◌-◌, ◌/◌, ◌%◌, String, Bool, true, false, ◌||◌, Option, none, some, List, [],
  ◌∷◌, ◌==◌, if◌then◌else◌, unwrap_or, drop, leb, nat_eq, length,
}
use rrq.Prelude.Int.{ℤ, pos, leb_ℤ, checked_add, checked_mul}
use rrq.Redis.Calls.{
  Io, Result, Error, RunningJobInfo, ok, err, invalid, pure, fail, attempt, ◌>>=◌, ◌>>◌,
}
use rrq.Job.{Job}
use rrq.Platform.{Platform, RrqSettings}
use rrq.Store.{get_job_definitions, atomic_claim_ready_jobs, refresh_job_lock_timeout}
use rrq.Worker.Outcome.{job_timeout}
use rrq.Worker.Release.{release_claimed_job, quarantine_claimed_job_without_definition}
use rrq.Worker.Release.Batch.{
  release_remaining_claimed_jobs, release_claimed_jobs_from_index,
  release_remaining_claimed_jobs_without_definitions,
}

-- The fields of the worker that a poll reads.
pub record Poller : Type 0 where
  pub worker_id : String
  pub queues : List String
  pub queue_cursor : ℕ
  pub worker_concurrency : ℕ
  pub provisional_claim_lock_timeout_ms : ℤ

-- How a part of a poll ends: the loops go on, or the poll returns. Each with the jobs started.
pub data Progress : Type 0 where
  go_on stop : ℕ → Progress

-- `&queues[index]`; the indexes are below the number of queues.
abbrev pub queue_at : List String → ℕ → String
queue_at [] n = ""
queue_at (q ∷ qs) zero = q
queue_at (q ∷ qs) (suc n) = queue_at qs n

-- `job_defs.get(index).and_then(Option::as_ref)`.
abbrev pub def_at : {A : Type 0} → List (Option A) → ℕ → Option A
def_at [] n = none
def_at (d ∷ ds) zero = d
def_at (d ∷ ds) (suc n) = def_at ds n

-- `HashMap::insert`.
abbrev pub insert_info :
    String → RunningJobInfo → List (String × RunningJobInfo) → List (String × RunningJobInfo)
insert_info id info [] = (id, info) ∷ []
insert_info id info ((k, old) ∷ rest) =
    if k == id then (k, info) ∷ rest else (k, old) ∷ insert_info id info rest

abbrev pub insert_abort : String → List String → List String
insert_abort id [] = id ∷ []
insert_abort id (k ∷ rest) = if k == id then k ∷ rest else k ∷ insert_abort id rest

-- `a.div_ceil(b)`.
abbrev pub div_ceil : ℕ → ℕ → ℕ
div_ceil a b = (a + (b - 1)) / b

-- `count.div_ceil(total_queues).max(1)`.
unfoldable pub fair_share : ℕ → ℕ → ℕ
fair_share count total_queues =
    if nat_eq (div_ceil count total_queues) 0 then 1 else div_ceil count total_queues

-- `remaining.min(fair_share)` in the first pass, `remaining` in the second.
unfoldable pub request_count : Bool → ℕ → ℕ → ℕ
request_count true remaining share = if leb remaining share then remaining else share
request_count false remaining share = remaining

module _ (p : Platform) (settings : RrqSettings p.redis.floats.F64) where
  open p use {redis, codec}
  open codec use {Time}

  -- What a poll meets and does not decide, at each place where it looks: by the pass (the first is
  -- `true`), the offset in the pass and, within a claimed batch, the index of the job.
  pub record Surroundings : Type 0 where
    pub shutdown : Bool → ℕ → Option ℕ → Bool
    pub clock : Bool → ℕ → Time
    -- The time at which claimed jobs are given back.
    pub release_clock : Bool → ℕ → Option ℕ → Time
    pub timestamp_millis : Time → ℤ
    -- Whether the semaphore gives a permit; it is closed otherwise.
    pub permit : Bool → ℕ → ℕ → Bool

  -- The two checked operations on the job's timeout.
  unfoldable pub lock_timeout_ms : Job codec → Option ℤ
  lock_timeout_ms j =
      elim (checked_add (job_timeout p settings j)
        settings.default_lock_timeout_extension_seconds) [
          | none ↦ none
          | some sum ↦ checked_mul sum (pos 1000)
        ]

  -- The task is spawned: its entries in the two tables.
  unfoldable pub spawn : Job codec → String → Io redis Unit
  spawn j queue_name w = (
    ok tt,
    record w {
      running =
          insert_info j.id
            (record { queue_name = queue_name; runner_name = none; request_id = none }) w.running;
      aborts = insert_abort j.id w.aborts;
    },
  )

  module _ (worker : Poller) (around : Surroundings) (first : Bool) (offset : ℕ)
      (queue_name : String) (claimed : List String) (defs : List (Option (Job codec))) where
    open worker use {worker_id}

    -- The time at which the job at the index is given back.
    abbrev now : ℕ → Time
    now index = around.release_clock first offset (some index)

    -- The jobs from an index on are given back, and the poll fails.
    abbrev give_back : ℕ → String → Error → Io redis Progress
    give_back index message e = do
      release_claimed_jobs_from_index p settings queue_name worker_id (some message) (now index)
          claimed defs index
      fail e

    abbrev pub dispatch : Job codec → ℕ → ℕ → Bool → Io redis Progress
    dispatch j index fetched true = do spawn j queue_name; pure (go_on (suc fetched))
    dispatch j index fetched false =
        give_back index "Worker concurrency permit acquisition failed before dispatch. Re-queued."
          (invalid "semaphore closed")

    abbrev pub on_refreshed : Job codec → ℕ → ℕ → Result Bool → Io redis Progress
    on_refreshed j index fetched (err e) =
        give_back index "Failed to refresh claimed job lock before dispatch. Re-queued." e
    on_refreshed j index fetched (ok false) = do
      release_claimed_job p settings queue_name j.id (some j)
          (some "Failed to refresh claimed job lock before dispatch. Re-queued.") worker_id
          (now index)
      pure (go_on fetched)
    on_refreshed j index fetched (ok true) =
        dispatch j index fetched (around.permit first offset index)

    abbrev pub on_timeout : Job codec → ℕ → ℕ → Option ℤ → Io redis Progress
    on_timeout j index fetched none =
        give_back index "Invalid lock timeout while preparing execution. Re-queued."
          (invalid "lock_timeout_ms overflow")
    on_timeout j index fetched (some timeout) =
        if leb_ℤ timeout (pos 0)
        then give_back index "Invalid lock timeout while preparing execution. Re-queued."
            (invalid "lock_timeout_ms must be positive")
        else (do
          refreshed ← attempt (refresh_job_lock_timeout p j.id worker_id timeout)
          on_refreshed j index fetched refreshed)

    abbrev pub on_definition : String → Option (Job codec) → ℕ → ℕ → Io redis Progress
    on_definition job_id none index fetched = do
      quarantine_claimed_job_without_definition p settings queue_name job_id
          "Failed to parse claimed job definition. Moved to DLQ." worker_id (now index)
      pure (go_on fetched)
    on_definition job_id (some j) index fetched = on_timeout j index fetched (lock_timeout_ms j)

    -- One turn of the loop over the claimed jobs.
    unfoldable pub poll_job : ℕ → String → ℕ → ℕ → Io redis Progress
    unfolding lock_timeout_ms spawn
    poll_job count job_id index fetched =
        if leb count fetched || around.shutdown first offset (some index)
        then (do
          release_remaining_claimed_jobs p settings queue_name worker_id
              (some "Job execution interrupted by worker shutdown. Re-queued.") (now index)
              (drop index claimed) (drop index defs)
          pure (stop fetched))
        else on_definition job_id (def_at defs index) index fetched

    abbrev pub when_on : Progress → (ℕ → Io redis Progress) → Io redis Progress
    when_on (stop n) rest = pure (stop n)
    when_on (go_on n) rest = rest n

    -- `for index in 0..claimed.len()`: the jobs from the index on.
    unfoldable pub poll_batch : ℕ → List String → ℕ → ℕ → Io redis Progress
    poll_batch count [] index fetched = pure (go_on fetched)
    poll_batch count (job_id ∷ rest) index fetched = do
      progress ← poll_job count job_id index fetched
      when_on progress (poll_batch count rest (suc index))

  abbrev pub claim : Poller → Surroundings → Bool → ℕ → String → ℕ → Io redis (List String)
  claim worker around first offset queue_name request =
      atomic_claim_ready_jobs p queue_name worker.worker_id worker.provisional_claim_lock_timeout_ms
        settings.default_lock_timeout_extension_seconds request
        (around.timestamp_millis (around.clock first offset)) (around.clock first offset)

  module _ (worker : Poller) (around : Surroundings) (count start_index : ℕ) (first : Bool) where
    open worker use {worker_id, queues}

    abbrev pub on_definitions :
        ℕ → String → List String → ℕ → Result (List (Option (Job codec))) → Io redis Progress
    on_definitions offset queue_name claimed fetched (err e) = do
      release_remaining_claimed_jobs_without_definitions p settings queue_name worker_id none
          (around.release_clock first offset none) claimed
      fail e
    on_definitions offset queue_name claimed fetched (ok defs) =
        poll_batch worker around first offset queue_name claimed defs count claimed 0 fetched

    abbrev pub on_claimed : ℕ → String → ℕ → List String → Io redis Progress
    on_claimed offset queue_name fetched [] = pure (go_on fetched)
    on_claimed offset queue_name fetched (job_id ∷ rest) = do
      defs ← attempt (get_job_definitions p (job_id ∷ rest) settings.default_max_retries)
      on_definitions offset queue_name (job_id ∷ rest) fetched defs

    abbrev pub claim_from : ℕ → String → ℕ → ℕ → Io redis Progress
    claim_from offset queue_name fetched request =
        if nat_eq request 0 then pure (go_on fetched) else (do
          claimed ← claim worker around first offset queue_name request
          on_claimed offset queue_name fetched claimed)

    -- One queue of a pass.
    unfoldable pub poll_queue : ℕ → ℕ → Io redis Progress
    poll_queue offset fetched =
        if leb count fetched || around.shutdown first offset none
        then pure (stop fetched)
        else claim_from offset (queue_at queues ((start_index + offset) % length queues)) fetched
            (request_count first (count - fetched) (fair_share count (length queues)))

    abbrev pub go : Progress → (ℕ → Io redis Progress) → Io redis Progress
    go (stop n) rest = pure (stop n)
    go (go_on n) rest = rest n

    -- `for offset in 0..total_queues`: so many queues from the offset on.
    unfoldable pub poll_pass : ℕ → ℕ → ℕ → Io redis Progress
    poll_pass zero offset fetched = pure (go_on fetched)
    poll_pass (suc left) offset fetched = do
      progress ← poll_queue offset fetched
      go progress (poll_pass left (suc offset))

  abbrev pub fetched_of : Progress → ℕ
  fetched_of (go_on n) = n
  fetched_of (stop n) = n

  -- The poll without the move of the cursor.
  unfoldable pub poll_queues : Poller → Surroundings → ℕ → ℕ → Io redis ℕ
  poll_queues worker around count start_index = do
    progress ← poll_pass worker around count start_index true (length worker.queues) 0 0
    progress' ←
        go worker around count start_index true progress
          (poll_pass worker around count start_index false (length worker.queues) 0)
    pure (fetched_of progress')

  -- The result and the worker with its cursor moved on, whether the poll fails or not.
  unfoldable pub poll_for_jobs : Poller → Surroundings → ℕ → Poller × Io redis ℕ
  poll_for_jobs worker around count =
      let total_queues = length worker.queues in
      let start_index = worker.queue_cursor % total_queues in
      (
        record worker { queue_cursor = (start_index + 1) % total_queues },
        poll_queues worker around count start_index,
      )
