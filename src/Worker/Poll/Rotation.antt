-- ===== src/Worker/Poll/Rotation.antt =====
-- Which queue `poll_for_jobs` of rrq-rs/orchestrator/src/worker.rs asks first.
use rrq.Prelude.{ℕ, List, [], ◌∷◌}
use rrq.Platform.{Platform, RrqSettings}
use rrq.Worker.Poll.{Poller, Surroundings, poll_for_jobs}

module _ (p : Platform) (settings : RrqSettings p.redis.floats.F64) where
  -- The worker after a sequence of polls.
  pub after_polls : Poller → List (Surroundings p settings × ℕ) → Poller
  after_polls worker [] = worker
  after_polls worker ((around, count) ∷ rest) =
      after_polls (poll_for_jobs p settings worker around count).0 rest
