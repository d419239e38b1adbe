-- ===== src/Examples/Witnesses.antt =====
-- The theorems at concrete data.
use rrq.Prelude.{String, none, some, [], ◌∷◌, ◌≡◌, ◌==◌, refl, arith, if◌then◌else◌, true, false}
use rrq.Prelude.Int.{pos, ◌+ℤ◌, ◌*ℤ◌, checked_add}
use rrq.Keys.{job, queue, active, lock, key_eq, normalize_queue_name}
use rrq.Redis.Log.{log_redis}
use rrq.Redis.Calls.{World, ok, lost_request, call}
use rrq.Job.{parse_job_map, build_job_mapping, field}
use rrq.Redis.Log.{int_of-int_text}
use rrq.Job.RoundTrip.{IsCodec, IsReadable, parse-build_job_mapping}
use rrq.Tracking.{NoLoss, status, live, Held}
use rrq.Scripts.{lock_and_start_lua, move_to_dlq_lua, release_lock_if_owner_lua}
use rrq.System.{Step, Reach, Reach-NoLoss}
use rrq.Worker.Routing.{split_runner_name, resolve_routed_runner}
use rrq.Worker.Outcome.{timed_out, move_to_dlq, cleanup_running}
use rrq.Store.{atomic_move_job_to_dlq, remove_active_job, release_job_lock_if_owner}
use rrq.Worker.Outcome.Tracked.{Stored}
use rrq.Worker.Execute.{execute_job, settle, handle_result, Runners}
use rrq.Worker.Execute.Ends.{execute_job-Stored}
use rrq.Worker.Execute.Loss.{settle-loses}
use rrq.Examples.Data.{
  sample_codec, sample_platform, sample_settings, sample_job, queued, queued-NoLoss, running,
  running-NoLoss, answer_ne_null, unit_ne_null,
}

started :
    Reach log_redis queued
      (lock_and_start_lua log_redis
        (lock "a")
        (queue "q")
        (job "a")
        (active "w")
        "w"
        (pos 1000)
        "a"
        "now"
        (pos 4)
        queued).1
started =
    Reach.then _ _ _ (Reach.here queued)
      (Step.lock_and_start "q" "w" "a" "now" (pos 1000) (pos 4) queued)

Reach-NoLoss_example :
    NoLoss log_redis
      (lock_and_start_lua log_redis
        (lock "a")
        (queue "q")
        (job "a")
        (active "w")
        "w"
        (pos 1000)
        "a"
        "now"
        (pos 4)
        queued).1
Reach-NoLoss_example = Reach-NoLoss log_redis _ _ started queued-NoLoss

abbrev sample_codec-IsCodec : IsCodec sample_codec
sample_codec-IsCodec = record {
  int-text = λ n low high. int_of-int_text n;
  json-text-ne-null = answer_ne_null;
  context-text-ne-null = unit_ne_null;
}

abbrev sample_job-IsReadable : IsReadable sample_codec sample_job
sample_job-IsReadable = record {
  params = refl;
  result = refl;
  enqueue_time = refl;
  start_time = tt;
  next_time = tt;
  completion_time = tt;
  trace = tt;
  correlation = refl;
  current_retries = (omega arith, omega arith);
  max_retries = (omega arith, omega arith);
  job_timeout = tt;
  result_ttl = tt;
}

parse-build_job_mapping_example :
    parse_job_map sample_codec (field (build_job_mapping sample_codec sample_job)) "b" (pos 3)
    ≡ some sample_job
parse-build_job_mapping_example =
    parse-build_job_mapping sample_codec sample_codec-IsCodec sample_job "b" (pos 3)
      sample_job-IsReadable (λ e. grind arith)

-- Every call is served.
abbrev calm : World log_redis
calm = record { db = running; faults = []; running = []; aborts = [] }

-- The first request is lost.
abbrev faulty : World log_redis
faulty = record { db = running; faults = lost_request ∷ []; running = []; aborts = [] }

abbrev late : Runners sample_platform sample_settings
late name = if name == "python" then some (λ request. timed_out) else none

execute_job-Stored_example :
    Stored log_redis "a"
      (execute_job sample_platform sample_settings late sample_job "q" "w" "r"
        (pos 300)
        (pos 9)
        calm).1.db
unfolding execute_job split_runner_name resolve_routed_runner settle handle_result move_to_dlq
    cleanup_running atomic_move_job_to_dlq move_to_dlq_lua remove_active_job
    release_job_lock_if_owner release_lock_if_owner_lua call key_eq checked_add ◌+ℤ◌ ◌*ℤ◌ field
    normalize_queue_name
execute_job-Stored_example =
    execute_job-Stored sample_platform sample_settings late sample_job "q" "w" "r" (pos 300) (pos 9)
      calm running-NoLoss returns
  where
    returns :
        (execute_job sample_platform sample_settings late sample_job "q" "w" "r"
          (pos 300)
          (pos 9)
          calm).0
        ≡ ok tt
    returns = refl

settle-loses_example :
    (live (
        status log_redis
          (settle sample_platform sample_settings sample_job timed_out "w" (pos 9) faulty).1.db
          "a")
      ≡ true)
    × ¬ Held log_redis
        (settle sample_platform sample_settings sample_job timed_out "w" (pos 9) faulty).1.db
        "a"
unfolding key_eq
settle-loses_example =
    settle-loses sample_platform sample_settings sample_job timed_out "w" (pos 9) faulty refl alive
      (λ q. refl) untracked
  where
    alive : live (status log_redis running "a") ≡ true
    alive = refl

    untracked : (a : String) → ("w" == a) ≡ false → log_redis.zscore running (active a) "a" ≡ none
    untracked a h = grind (arith)
