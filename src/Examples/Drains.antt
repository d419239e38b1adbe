-- ===== src/Examples/Drains.antt =====
-- The theorem on the jobs of a worker that shuts down, at concrete data.
use rrq.Prelude.{String, none, some, [], ◌∷◌, ◌≡◌, ◌==◌, refl, arith, true, false}
use rrq.Prelude.Int.{pos}
use rrq.Keys.{active, key_eq}
use rrq.Job.{parse_job_map, parse}
use rrq.Redis.Log.{log_redis}
use rrq.Redis.Calls.{World, RunningJobInfo, ok, served, lost_request, call}
use rrq.Tracking.{live, status, Held}
use rrq.Store.{get_job_definition}
use rrq.Worker.Drain.{drain_job}
use rrq.Worker.Drain.Loss.{drain-loses}
use rrq.Examples.Data.{sample_platform, sample_settings, interrupted, interrupted_job}

abbrev faulty : World log_redis
faulty = record { db = interrupted; faults = served ∷ lost_request ∷ []; running = []; aborts = [] }

abbrev info : RunningJobInfo
info = record { queue_name = "q"; runner_name = none; request_id = none }

drain-loses_example :
    (live (
        status log_redis
          (drain_job sample_platform sample_settings "a" info "w" (pos 9) faulty).1.db
          "a")
      ≡ true)
    × ¬ Held log_redis
        (drain_job sample_platform sample_settings "a" info "w" (pos 9) faulty).1.db
        "a"
unfolding get_job_definition parse_job_map parse call key_eq
drain-loses_example =
    drain-loses sample_platform sample_settings "a" "w" info interrupted_job (pos 9) faulty refl
      read refl (λ q. refl) untracked
  where
    read :
        get_job_definition sample_platform "a" sample_settings.default_max_retries faulty
        ≡ (ok (some interrupted_job), record faulty { faults = lost_request ∷ [] })
    read = refl

    untracked :
        (a : String) → ("w" == a) ≡ false → log_redis.zscore interrupted (active a) "a" ≡ none
    untracked a h = grind (arith)
