-- ===== src/Examples/Recoveries.antt =====
-- The theorems on the recovery of orphaned jobs at concrete data.
use rrq.Prelude.{false, true, [], ◌∷◌, ◌≡◌, refl, inr, arith, is_some}
use rrq.Prelude.Int.{pos, negsuc, ◌+ℤ◌, ◌*ℤ◌, checked_add, checked_mul}
use rrq.Keys.{key_eq, format_queue_key, normalize_queue_name}
use rrq.Redis.Log.{log_redis}
use rrq.Redis.Calls.{World, lost_request, lost_reply}
use rrq.Job.{parse, parse_job_map}
use rrq.Tracking.{NoLoss}
use rrq.Worker.Recover.{Scanning, recover_job, recover_orphaned_jobs}
use rrq.Worker.Recover.Named.{Named}
use rrq.Worker.Recover.Whole.{recover_orphaned_jobs-NoLoss}
use rrq.Worker.Recover.Back.{recover_job-requeues}
use rrq.Examples.Data.{sample_platform, sample_settings, interrupted, interrupted_job}

interrupted-NoLoss : NoLoss log_redis interrupted
unfolding key_eq
interrupted-NoLoss = record { held = λ id alive. inr ("w", grind arith) }

interrupted-Named : Named log_redis interrupted
unfolding key_eq
interrupted-Named = record { own = λ id v e. grind arith }

-- A reply is lost and then a request.
abbrev orphaned : World log_redis
orphaned = record {
  db = interrupted;
  faults = lost_reply ∷ lost_request ∷ [];
  running = [];
  aborts = [];
}

abbrev sample_scanning : Scanning log_redis
sample_scanning = record {
  scan_active = λ db cursor. (0, "rrq:active:jobs:w" ∷ []);
  ttl = λ db k. negsuc 1;
  trim_start_matches = λ s prefix. "w";
}

recover_orphaned_jobs-NoLoss_example :
    NoLoss log_redis
      (recover_orphaned_jobs sample_platform sample_settings sample_scanning
        (λ n. false)
        (λ n. pos 9)
        5
        0
        0
        0
        orphaned).1.db
recover_orphaned_jobs-NoLoss_example =
    recover_orphaned_jobs-NoLoss sample_platform sample_settings sample_scanning (λ n. false)
      (λ n. pos 9) 5 orphaned interrupted-NoLoss interrupted-Named

recover_job-requeues_example :
    is_some (
      log_redis.zscore
        (recover_job sample_platform sample_settings "w" "a"
          (pos 9)
          (record orphaned { faults = [] })).1.db
        (format_queue_key (normalize_queue_name "rrq:queue:default"))
        "a")
    ≡ true
unfolding parse_job_map parse checked_add checked_mul ◌+ℤ◌ ◌*ℤ◌ key_eq
recover_job-requeues_example =
    recover_job-requeues sample_platform sample_settings interrupted_job "w" (pos 360000) (pos 9)
      (record orphaned { faults = [] }) refl refl refl refl refl refl refl refl
