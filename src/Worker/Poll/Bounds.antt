-- ===== src/Worker/Poll/Bounds.antt =====
-- How many jobs `poll_for_jobs` of rrq-rs/orchestrator/src/worker.rs starts.
use rrq.Prelude.{
  ℕ, zero, suc, ◌+◌, ◌-◌, ◌%◌, ◌≤◌, String, Bool, true, false, ◌||◌, Option, none, some, List, [],
  ◌∷◌, ◌≡◌, arith, leb, nat_eq, length,
}
use rrq.Prelude.Int.{ℤ, pos, leb_ℤ, ltb_ℤ}
use rrq.Redis.Calls.{World, Io, Result, ok, err, pure, attempt, ◌>>=◌}
use rrq.Redis.Triples.{
  Triple, Triple-any, Triple-bind, Triple-if, Triple-pure, Triple-fail, Triple-call, Triple-given,
  Triple-weaken, Triple-returned,
}
use rrq.Job.{Job}
use rrq.Platform.{Platform, RrqSettings}
use rrq.Keys.{bare_name, queue_key_prefix, format_queue_key}
use rrq.Scripts.Claim.{claim_ready-Taken}
use rrq.Store.{refresh_job_lock_timeout, atomic_claim_ready_jobs, get_job_definitions}
use rrq.Worker.Poll.{
  Poller, Progress, go_on, stop, Surroundings, dispatch, on_refreshed, on_timeout, on_definition,
  poll_job, poll_batch, when_on, lock_timeout_ms, fetched_of, def_at, claim, on_definitions,
  on_claimed, claim_from, poll_queue, request_count, fair_share, poll_pass, go, poll_queues,
  poll_for_jobs,
}

requested-le :
    (first : Bool) {count : ℕ} (fetched share : ℕ)
    → fetched ≤ count
    → fetched + request_count first (count - fetched) share ≤ count
unfolding request_count
requested-le true fetched share h = ground arith
requested-le false fetched share h = omega arith

module _ (p : Platform) (settings : RrqSettings p.redis.floats.F64) where
  open p use {redis, codec}

  -- The action's progress is within the bounds, where it returns one, whatever the data are.
  abbrev pub Fetches : ℕ → ℕ → Io redis Progress → Type 0
  Fetches low high m =
      Triple (λ _. Unit {0}) m
        (λ progress _.
          (low ≤ fetched_of p settings progress) × (fetched_of p settings progress ≤ high))
        (λ _. Unit {0})

  Fetches-widen :
      {low low' high high' : ℕ} (m : Io redis Progress)
      → low' ≤ low
      → high ≤ high'
      → Fetches low high m
      → Fetches low' high' m
  Fetches-widen m l h = Triple-weaken m (λ _ _ b. (omega arith, omega arith))

  Fetches-bind :
      {low mid high : ℕ} (m : Io redis Progress) (k : Progress → Io redis Progress)
      → Fetches low mid m
      → ((progress : Progress)
          → low ≤ fetched_of p settings progress
          → fetched_of p settings progress ≤ mid
          → Fetches low high (k progress))
      → Fetches low high (m >>= k)
  Fetches-bind m k f g = Triple-bind _ m k f (λ progress. Triple-given _ (λ h. g progress h.0 h.1))

  module _ (worker : Poller) (around : Surroundings p settings) (first : Bool) (offset : ℕ)
      (queue_name : String) (claimed : List String) (defs : List (Option (Job codec))) where
    refreshed-Fetches :
        (j : Job codec) (index fetched : ℕ) (res : Result {0} Bool)
        → Fetches fetched (suc fetched) (
            on_refreshed p settings worker around first offset queue_name claimed defs j index
              fetched res)
    refreshed-Fetches j index fetched (err e) =
        Triple-bind _ _ _ (Triple-any _) (λ _. Triple-fail e (λ _ _. tt))
    refreshed-Fetches j index fetched (ok false) =
        Triple-bind _ _ _ (Triple-any _) (λ _. Triple-pure _ (λ _ _. (omega arith, omega arith)))
    refreshed-Fetches j index fetched (ok true) = dispatched (around.permit first offset index)
      where
        dispatched :
            (permit : Bool)
            → Fetches fetched (suc fetched) (
                dispatch p settings worker around first offset queue_name claimed defs j index
                  fetched permit)
        dispatched true =
            Triple-bind _ _ _ (Triple-any _)
              (λ _. Triple-pure _ (λ _ _. (omega arith, omega arith)))
        dispatched false = Triple-bind _ _ _ (Triple-any _) (λ _. Triple-fail _ (λ _ _. tt))

    timeout-Fetches :
        (j : Job codec) (index fetched : ℕ) (timeout : Option ℤ)
        → Fetches fetched (suc fetched) (
            on_timeout p settings worker around first offset queue_name claimed defs j index fetched
              timeout)
    timeout-Fetches j index fetched none =
        Triple-bind _ _ _ (Triple-any _) (λ _. Triple-fail _ (λ _ _. tt))
    timeout-Fetches j index fetched (some t) =
        Triple-if (leb_ℤ t (pos 0)) _ _
          (λ _. Triple-bind _ _ _ (Triple-any _) (λ _. Triple-fail _ (λ _ _. tt)))
          (λ _.
            Triple-bind _ (attempt (refresh_job_lock_timeout p j.id worker.worker_id t)) _
              (Triple-any _) (refreshed-Fetches j index fetched))

    definition-Fetches :
        (job_id : String) (d : Option (Job codec)) (index fetched : ℕ)
        → Fetches fetched (suc fetched) (
            on_definition p settings worker around first offset queue_name claimed defs job_id d
              index fetched)
    definition-Fetches job_id none index fetched =
        Triple-bind _ _ _ (Triple-any _) (λ _. Triple-pure _ (λ _ _. (omega arith, omega arith)))
    definition-Fetches job_id (some j) index fetched =
        timeout-Fetches j index fetched (lock_timeout_ms p settings j)

    job-Fetches :
        (count : ℕ) (job_id : String) (index fetched : ℕ)
        → Fetches fetched (suc fetched) (
            poll_job p settings worker around first offset queue_name claimed defs count job_id
              index fetched)
    unfolding poll_job
    job-Fetches count job_id index fetched =
        Triple-if (leb count fetched || around.shutdown first offset (some index)) _ _
          (λ _.
            Triple-bind _ _ _ (Triple-any _)
              (λ _. Triple-pure _ (λ _ _. (omega arith, omega arith))))
          (λ _. definition-Fetches job_id (def_at defs index) index fetched)

    batch-Fetches :
        (count : ℕ) (ids : List String) (index fetched : ℕ)
        → Fetches fetched (fetched + length ids) (
            poll_batch p settings worker around first offset queue_name claimed defs count ids index
              fetched)
    unfolding poll_batch
    batch-Fetches count [] index fetched = Triple-pure _ (λ _ _. (omega arith, omega arith))
    batch-Fetches count (id ∷ ids) index fetched =
        Fetches-bind _ _ (job-Fetches count id index fetched)
          (λ progress low high. rest progress low high (batch-Fetches count ids (suc index)))
      where
        rest :
            (progress : Progress)
            → fetched ≤ fetched_of p settings progress
            → fetched_of p settings progress ≤ suc fetched
            → ((n : ℕ)
                → Fetches n (n + length ids) (
                    poll_batch p settings worker around first offset queue_name claimed defs count
                      ids
                      (suc index)
                      n))
            → Fetches fetched (fetched + suc (length ids)) (
                when_on p settings worker around first offset queue_name claimed defs progress (
                  poll_batch p settings worker around first offset queue_name claimed defs count ids
                    (suc index)))
        rest (stop n) low high again = Triple-pure _ (λ _ _. (low, omega arith))
        rest (go_on n) low high again = Fetches-widen _ (omega arith) (omega arith) (again n)

  module _ (worker : Poller) (around : Surroundings p settings) (count start_index : ℕ)
      (first : Bool) where
    claim-length :
        (queue_name : String) (request : ℕ) (offset : ℕ)
        → Triple
            (λ _. Unit {0})
            (claim p settings worker around first offset queue_name request)
            (λ claimed _. length claimed ≤ request)
            (λ _. Unit {0})
    unfolding atomic_claim_ready_jobs format_queue_key
    claim-length queue_name zero offset = Triple-pure [] (λ _ _. omega arith)
    claim-length queue_name (suc n) offset =
        Triple-if (leb_ℤ worker.provisional_claim_lock_timeout_ms (pos 0)) _ _
          (λ _. Triple-fail _ (λ _ _. tt))
          (λ _.
            Triple-if (ltb_ℤ settings.default_lock_timeout_extension_seconds (pos 0)) _ _
              (λ _. Triple-fail _ (λ _ _. tt))
              (λ _.
                Triple-call _
                  (λ db _.
                    (claim_ready-Taken redis (bare_name queue_key_prefix queue_name)
                      worker.worker_id _ _ _ _ _ (suc n) db).1)
                  (λ _ _. tt) (λ _ _. tt)))

    definitions-Fetches :
        (offset : ℕ) (queue_name : String) (claimed : List String) (fetched : ℕ)
        (res : Result {0} (List (Option (Job codec))))
        → Fetches fetched (fetched + length claimed) (
            on_definitions p settings worker around count start_index first offset queue_name
              claimed fetched res)
    definitions-Fetches offset queue_name claimed fetched (err e) =
        Triple-bind _ _ _ (Triple-any _) (λ _. Triple-fail e (λ _ _. tt))
    definitions-Fetches offset queue_name claimed fetched (ok defs) =
        batch-Fetches worker around first offset queue_name claimed defs count claimed 0 fetched

    claimed-Fetches :
        (offset : ℕ) (queue_name : String) (fetched : ℕ) (claimed : List String)
        → Fetches fetched (fetched + length claimed) (
            on_claimed p settings worker around count start_index first offset queue_name fetched
              claimed)
    claimed-Fetches offset queue_name fetched [] = Triple-pure _ (λ _ _. (omega arith, omega arith))
    claimed-Fetches offset queue_name fetched (id ∷ ids) =
        Triple-bind _ (attempt (get_job_definitions p (id ∷ ids) settings.default_max_retries)) _
          (Triple-any _) (definitions-Fetches offset queue_name (id ∷ ids) fetched)

    claim_from-Fetches :
        (offset : ℕ) (queue_name : String) (fetched request : ℕ)
        → Fetches fetched (fetched + request) (
            claim_from p settings worker around count start_index first offset queue_name fetched
              request)
    claim_from-Fetches offset queue_name fetched request =
        Triple-if (nat_eq request 0) _ _ (λ _. Triple-pure _ (λ _ _. (omega arith, omega arith)))
          (λ _.
            Triple-bind (λ claimed _. length claimed ≤ request)
              (claim p settings worker around first offset queue_name request) _
              (claim-length queue_name request offset)
              (λ claimed. Triple-given _ (λ h.
                Fetches-widen _ (omega arith) (omega arith)
                  (claimed-Fetches offset queue_name fetched claimed))))

    -- Where a poll has asked one queue, it has started at most so many jobs more as it asked that
    -- queue for: what is left of the count, and in the first pass no more than the fair share.
    pub poll_queue-Fetches :
        (offset fetched : ℕ)
        → Fetches fetched
            (fetched
              + request_count first (count - fetched) (fair_share count (length worker.queues)))
            (poll_queue p settings worker around count start_index first offset fetched)
    unfolding poll_queue
    poll_queue-Fetches offset fetched =
        Triple-if (leb count fetched || around.shutdown first offset none) _ _
          (λ _. Triple-pure _ (λ _ _. (omega arith, omega arith)))
          (λ _. claim_from-Fetches offset _ fetched _)

    pass-Fetches :
        (left offset fetched : ℕ)
        → fetched ≤ count
        → Fetches fetched count
            (poll_pass p settings worker around count start_index first left offset fetched)
    unfolding poll_pass
    pass-Fetches zero offset fetched h = Triple-pure _ (λ _ _. (omega arith, h))
    pass-Fetches (suc left) offset fetched h =
        Fetches-bind _ _
          (Fetches-widen _ (omega arith) (requested-le first fetched _ h)
            (poll_queue-Fetches offset fetched))
          (λ progress low high. rest progress low high (pass-Fetches left (suc offset)))
      where
        rest :
            (progress : Progress)
            → fetched ≤ fetched_of p settings progress
            → fetched_of p settings progress ≤ count
            → ((n : ℕ)
                → n ≤ count
                → Fetches n count (
                    poll_pass p settings worker around count start_index first left (suc offset) n))
            → Fetches fetched count (
                go p settings worker around count start_index first progress
                  (poll_pass p settings worker around count start_index first left (suc offset)))
        rest (stop n) low high again = Triple-pure _ (λ _ _. (low, high))
        rest (go_on n) low high again = Fetches-widen _ low (omega arith) (again n high)

  queues-Triple :
      (worker : Poller) (around : Surroundings p settings) (count start_index : ℕ)
      → Triple
          (λ _. Unit {0})
          (poll_queues p settings worker around count start_index)
          (λ n _. n ≤ count)
          (λ _. Unit {0})
  unfolding poll_queues
  queues-Triple worker around count start_index =
      Triple-bind _ _ _ (pass true 0 (omega arith))
        (λ progress. Triple-given _ (λ h. second progress h.1))
    where
      pass :
          (first : Bool) (fetched : ℕ)
          → fetched ≤ count
          → Fetches fetched count (
              poll_pass p settings worker around count start_index first
                (length worker.queues)
                0
                fetched)
      pass first fetched h =
          pass-Fetches worker around count start_index first (length worker.queues) 0 fetched h

      second :
          (progress : Progress)
          → fetched_of p settings progress ≤ count
          → Triple
              (λ _. Unit {0})
              (go p settings worker around count start_index true progress (
                  poll_pass p settings worker around count start_index false
                    (length worker.queues)
                    0)
                >>= λ progress'. pure (fetched_of p settings progress'))
              (λ n _. n ≤ count)
              (λ _. Unit {0})
      second (stop n) h = Triple-pure _ (λ _ _. h)
      second (go_on n) h =
          Triple-bind _ _ _ (pass false n h) (λ progress. Triple-pure _ (λ _ b. b.1))

  -- A poll that returns reports no more jobs than it was asked for, whatever the data are,
  -- whichever calls fail and whenever the worker is shut down.
  pub poll_for_jobs-le :
      (worker : Poller) (around : Surroundings p settings) (count : ℕ) (w : World redis) {n : ℕ}
      → ((poll_for_jobs p settings worker around count).1 w).0 ≡ ok n
      → n ≤ count
  unfolding poll_for_jobs
  poll_for_jobs-le worker around count w e =
      Triple-returned
        (queues-Triple worker around count (worker.queue_cursor % length worker.queues)) w tt e
