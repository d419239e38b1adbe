-- ===== src/Worker/Release/Batch.antt =====
-- The loops of rrq-rs/orchestrator/src/worker.rs over claimed jobs and their definitions.
use rrq.Prelude.{ℕ, zero, suc, String, Option, none, some, List, [], ◌∷◌, drop, ◌≡◌, refl}
use rrq.Redis.Calls.{Io, pure, ◌>>◌}
use rrq.Job.{Job}
use rrq.Platform.{Platform, RrqSettings}
use rrq.Worker.Release.{
  release_claimed_job, quarantine_claimed_job_without_definition,
  release_claimed_job_without_definition,
}

drop-nil : {A : Type 0} (n : ℕ) → drop {A = A} n [] ≡ []
drop-nil zero = refl
drop-nil (suc n) = refl

module _ (p : Platform) (settings : RrqSettings p.redis.floats.F64) where
  open p use {redis, codec}
  open codec use {Time}

  module _ (queue_name worker_id : String) (pending_error : Option String) (now : Time) where
    -- One claimed job, with its definition where it could be parsed.
    abbrev release_one : String → Option (Job codec) → Io redis Unit
    release_one job_id none =
        quarantine_claimed_job_without_definition p settings queue_name job_id
          "Failed to parse claimed job definition. Moved to DLQ." worker_id now
    release_one job_id (some j) =
        release_claimed_job p settings queue_name job_id (some j) pending_error worker_id now

    unfoldable pub release_remaining_claimed_jobs :
        List String → List (Option (Job codec)) → Io redis Unit
    release_remaining_claimed_jobs [] defs = pure tt
    release_remaining_claimed_jobs (job_id ∷ rest) [] = do
      release_one job_id none
      release_remaining_claimed_jobs rest []
    release_remaining_claimed_jobs (job_id ∷ rest) (d ∷ defs) = do
      release_one job_id d
      release_remaining_claimed_jobs rest defs

    -- `job_defs.get(index)`.
    abbrev first : List (Option (Job codec)) → Option (Job codec)
    first [] = none
    first (d ∷ defs) = d

    -- The jobs from the index on, the definition at the index, and what is behind the index.
    abbrev release_from :
        List String → Option (Job codec) → List String → List (Option (Job codec)) → Io redis Unit
    release_from [] d remaining_claimed remaining_defs = pure tt
    release_from (job_id ∷ rest) d remaining_claimed remaining_defs = do
      release_one job_id d
      release_remaining_claimed_jobs remaining_claimed remaining_defs

    unfoldable pub release_claimed_jobs_from_index :
        List String → List (Option (Job codec)) → ℕ → Io redis Unit
    release_claimed_jobs_from_index claimed defs index =
        release_from (drop index claimed) (first (drop index defs)) (drop (suc index) claimed)
          (drop (suc index) defs)

    unfoldable pub release_remaining_claimed_jobs_without_definitions : List String → Io redis Unit
    release_remaining_claimed_jobs_without_definitions [] = pure tt
    release_remaining_claimed_jobs_without_definitions (job_id ∷ rest) = do
      release_claimed_job_without_definition p settings queue_name job_id
          (some "Failed to load claimed job definition. Re-queued.") worker_id now
      release_remaining_claimed_jobs_without_definitions rest

    -- Releasing from an index on releases the jobs from there with their definitions, each once and
    -- in order; behind the end of the definitions the jobs are quarantined.
    pub from_index-remaining :
        (claimed : List String) (defs : List (Option (Job codec))) (index : ℕ)
        → release_claimed_jobs_from_index claimed defs index
          ≡ release_remaining_claimed_jobs (drop index claimed) (drop index defs)
    unfolding release_claimed_jobs_from_index release_remaining_claimed_jobs
    from_index-remaining [] [] zero = refl
    from_index-remaining [] (d ∷ defs) zero = refl
    from_index-remaining (c ∷ claimed) [] zero = refl
    from_index-remaining (c ∷ claimed) (d ∷ defs) zero = refl
    from_index-remaining [] [] (suc n) = refl
    from_index-remaining [] (d ∷ defs) (suc n) = refl
    from_index-remaining (c ∷ claimed) [] (suc n) =
        (rw (drop-nil n) at (from_index-remaining claimed [] n))
    from_index-remaining (c ∷ claimed) (d ∷ defs) (suc n) = from_index-remaining claimed defs n
