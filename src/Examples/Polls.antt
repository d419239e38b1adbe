-- ===== src/Examples/Polls.antt =====
-- The theorems on the worker's polls at concrete data.
use rrq.Prelude.{◌≤◌, true, false, some, List, [], ◌∷◌, refl}
use rrq.Prelude.Int.{ℤ, pos, checked_add, checked_mul, ◌+ℤ◌, ◌*ℤ◌}
use rrq.Keys.{queue, job, key_eq, format_queue_key}
use rrq.Redis.{Write, hset, zadd}
use rrq.Redis.Log.{log_redis}
use rrq.Redis.Calls.{World, call}
use rrq.Job.{parse, parse_job_map, eq_ignore_ascii_case}
use rrq.Scripts.{
  claim_ready_lua, claim_loop, claim_candidate, start_claimed, candidate_timeout_ms,
  refresh_lock_lua,
}
use rrq.Store.{atomic_claim_ready_jobs, get_job_definitions, refresh_job_lock_timeout}
use rrq.Worker.Poll.{
  Poller, Surroundings, poll_job, poll_for_jobs, poll_queues, poll_pass, poll_queue, poll_batch,
  request_count, fair_share, lock_timeout_ms, spawn,
}
use rrq.Worker.Poll.Bounds.{poll_for_jobs-le}
use rrq.Worker.Poll.Owned.{IsReady, poll_job-IsReady}
use rrq.Examples.Data.{sample_platform, sample_settings, sample_job, running}

abbrev sample_poller : Poller
sample_poller = record {
  worker_id = "w";
  queues = "q" ∷ "r" ∷ "s" ∷ [];
  queue_cursor = 1;
  worker_concurrency = 4;
  provisional_claim_lock_timeout_ms = pos 360000;
}

abbrev one_queue : Poller
one_queue = record sample_poller { queues = "q" ∷ []; queue_cursor = 0 }

abbrev calm : Surroundings sample_platform sample_settings
calm = record {
  shutdown = λ first offset index. false;
  clock = λ first offset. pos 9;
  release_clock = λ first offset index. pos 9;
  timestamp_millis = λ t. t;
  permit = λ first offset index. true;
}

-- The job "a" waits in the queue "q", and no other.
abbrev one_queued : List (Write ℤ)
one_queued =
    zadd (queue "q") "a" (pos 3)
    ∷ hset (job "a") "status" "PENDING"
    ∷ hset (job "a") "enqueue_time" "+iii"
    ∷ []

abbrev waiting : World log_redis
waiting = record { db = one_queued; faults = []; running = []; aborts = [] }

abbrev claimed : World log_redis
claimed = record { db = running; faults = []; running = []; aborts = [] }

poll_for_jobs-le_example : 1 ≤ 1
unfolding poll_for_jobs key_eq poll_queues poll_pass poll_queue request_count fair_share
    atomic_claim_ready_jobs call claim_ready_lua claim_loop format_queue_key claim_candidate
    get_job_definitions poll_batch poll_job start_claimed parse_job_map parse eq_ignore_ascii_case
    checked_add checked_mul ◌*ℤ◌ ◌+ℤ◌ candidate_timeout_ms refresh_lock_lua refresh_job_lock_timeout
    lock_timeout_ms spawn
poll_for_jobs-le_example =
    poll_for_jobs-le sample_platform sample_settings one_queue calm 1 waiting {n = 1} refl

poll_job-IsReady_example :
    IsReady sample_platform sample_settings sample_poller calm true 0 "q"
      ("a" ∷ [])
      (some sample_job ∷ [])
      0
      0
      (some sample_job)
      (poll_job sample_platform sample_settings sample_poller calm true 0 "q"
        ("a" ∷ [])
        (some sample_job ∷ [])
        2
        "a"
        0
        0
        claimed).1.db
unfolding poll_job key_eq checked_add ◌+ℤ◌ checked_mul ◌*ℤ◌ refresh_job_lock_timeout call
    refresh_lock_lua
poll_job-IsReady_example =
    poll_job-IsReady sample_platform sample_settings sample_poller calm true 0 "q" ("a" ∷ [])
      (some sample_job ∷ []) 0 0 2 "a" claimed refl
