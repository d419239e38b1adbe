-- ===== src/Examples/Releases.antt =====
-- The theorems on released jobs at concrete data.
use rrq.Prelude.{none, some, [], ◌∷◌, refl}
use rrq.Prelude.Int.{pos}
use rrq.Keys.{key_eq}
use rrq.Redis.Log.{log_redis}
use rrq.Redis.Calls.{World, lost_reply, lost_request}
use rrq.Tracking.{NoLoss}
use rrq.Worker.Release.{release_claimed_job, quarantine_claimed_job_without_definition}
use rrq.Worker.Release.Ends.{release_claimed_job-NoLoss}
use rrq.Worker.Release.Quarantine.{quarantine-NoLoss}
use rrq.Examples.Data.{sample_platform, sample_settings, sample_job, running, running-NoLoss}

-- The owner is read at the second attempt, and the reply of the third call is lost.
abbrev faulty : World log_redis
faulty = record {
  db = running;
  faults = lost_request ∷ lost_reply ∷ lost_reply ∷ [];
  running = [];
  aborts = [];
}

release_claimed_job-NoLoss_example :
    NoLoss log_redis
      (release_claimed_job sample_platform sample_settings "q" "a"
        (some sample_job)
        none
        "w"
        (pos 9)
        faulty).1.db
unfolding key_eq
release_claimed_job-NoLoss_example =
    release_claimed_job-NoLoss sample_platform sample_settings "a" "w" "q" sample_job none (pos 9)
      faulty refl refl running-NoLoss refl refl

quarantine-NoLoss_example :
    NoLoss log_redis
      (quarantine_claimed_job_without_definition sample_platform sample_settings "q" "a" "malformed"
        "w"
        (pos 9)
        faulty).1.db
unfolding key_eq
quarantine-NoLoss_example =
    quarantine-NoLoss sample_platform sample_settings "a" "w" "q" "malformed" (pos 9) faulty
      running-NoLoss refl refl
