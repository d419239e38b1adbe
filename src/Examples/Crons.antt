-- ===== src/Examples/Crons.antt =====
-- The theorems on cron jobs at concrete data.
use rrq.Prelude.{
  ℕ, ◌+◌, ◌*◌, ◌/◌, ◌≡◌, String, Bool, true, false, Option, none, some, List, [], ◌∷◌, refl, map,
  ltb, ◌==◌, if◌then◌else◌,
}
use rrq.Prelude.Int.{ℤ, pos, negsuc, leb_ℤ}
use rrq.Redis.Log.{log_redis}
use rrq.Redis.Calls.{World, lost_reply, lost_request, ok}
use rrq.Worker.Cron.{CronEnvironment, CronJob, cron_round}
use rrq.Worker.Cron.Rounds.{rescheduled, cron_round-map}
use rrq.Worker.Cron.Times.{dues, dues-again}
use rrq.Examples.Data.{sample_platform, sample_settings, queued}
use rrq.Examples.Clients.{sample_client}

abbrev minute_start : ℤ → ℤ
minute_start (pos n) = pos (n / 60 * 60)
minute_start (negsuc n) = negsuc n

-- The next time with the second, for a time in seconds.
abbrev next_time : ℕ → ℤ → ℤ
next_time second (pos n) =
    if ltb n (n / 60 * 60 + second)
    then pos (n / 60 * 60 + second)
    else pos (n / 60 * 60 + 60 + second)
next_time second (negsuc n) = pos second

abbrev every_minute : CronEnvironment ℤ
every_minute = record {
  Schedule = ℕ;
  from_str = λ s. if s == "0 * * * * *" then some 0 else some 30;
  next_after = λ second t. some (next_time second t);
  start_of_minute = minute_start;
  at_or_after = λ a b. leb_ℤ b a;
}

abbrev job_at : String → Bool → Option ℤ → CronJob (Unit {0}) ℤ
job_at schedule unique next = record {
  function_name = "report";
  schedule = schedule;
  params = tt;
  queue_name = none;
  unique = unique;
  next_run_time = next;
}

-- The reply to the enqueue's script is lost, and the TTL of the unique lock is not read.
abbrev faulty : World log_redis
faulty = record {
  db = queued;
  faults = lost_request ∷ lost_reply ∷ lost_reply ∷ [];
  running = [];
  aborts = [];
}

abbrev two_jobs : List (CronJob (Unit {0}) ℤ)
two_jobs =
    job_at "0 * * * * *" true (some (pos 60)) ∷ job_at "0 * * * * *" false (some (pos 600)) ∷ []

cron_round-map_example :
    (cron_round sample_platform sample_client sample_settings every_minute
      (λ n. false)
      (λ n. "new")
      (λ n. pos 75)
      (pos 75)
      two_jobs
      faulty).0
    ≡ ok (some (map (rescheduled every_minute (pos 75)) two_jobs))
cron_round-map_example =
    cron_round-map sample_platform sample_client sample_settings every_minute (λ n. false)
      (λ n. "new") (λ n. pos 75) (λ n. refl) (pos 75) two_jobs faulty

-- The run at 90 is due in the rounds at 95 and at 105, and at 135 again.
dues-again_example :
    dues every_minute
      (pos 95 ∷ pos 105 ∷ pos 135 ∷ [])
      (job_at "30 * * * * *" false (some (pos 90)) ∷ [])
    ≡ 3
dues-again_example =
    dues-again every_minute (job_at "30 * * * * *" false none) {next = pos 90}
      (pos 95 ∷ pos 105 ∷ []) (pos 135) refl refl ((refl, refl), ((refl, refl), tt)) refl
