-- ===== src/Examples/Producers.antt =====
-- The theorems on the producer at concrete data.
use rrq.Prelude.{
  String, true, none, some, List, [], ◌∷◌, ◌≡◌, ◌==◌, refl, arith, ◌≤◌, is_some, leb, if◌then◌else◌,
  length, All,
}
use rrq.Prelude.Int.{ℤ, pos, ◌-ℤ◌}
use rrq.Keys.{job, queue, debounce, key_eq}
use rrq.Redis.{hset}
use rrq.Redis.Log.{log_redis}
use rrq.Redis.Calls.{World, ok, err, invalid, call}
use rrq.Producer.Scripts.{
  NewJob, idempotency_of, claim_key, enqueue_script, debounce_script, debounce_new,
}
use rrq.Producer.Scripts.Debounce.{debounce-once}
use rrq.Producer.Scripts.Keeps.{KeepsJobs, enqueue-KeepsJobs}
use rrq.Producer.Enqueue.{
  Environment, ProducerConfig, EnqueueOptions, JobResult, Status, enqueue, get_job_status, from_str,
}
use rrq.Producer.Enqueue.Checks.{first_of, checks_of, enqueue-refused, enqueue-twice}
use rrq.Producer.Wait.{RedisValue, Turns, wait_for_completion, wait_loop}
use rrq.Producer.Wait.Ends.{
  wait_for_completion-ends, wait_for_completion-finds, wait_for_completion-Explains, Explains,
}
use rrq.Producer.Correlation.{
  JsonValues, Shape, truncate_utf8, extract_correlation_context, correlation_loop,
  lookup_value_in_params,
}
use rrq.Producer.Correlation.Bounds.{Small, extract_correlation_context-Small}
use rrq.Examples.Data.{sample_codec, sample_platform, queued, running}

abbrev sample_environment : Environment sample_platform
sample_environment = record {
  Duration = ℤ;
  trim = λ s. s;
  ceil_seconds = λ d. d;
  add_duration = λ t d. d;
  milliseconds_since = λ a b. a -ℤ b;
  merge_trace_context = λ c. c;
  correlate = λ params c. none;
}

abbrev sample_config : ProducerConfig
sample_config = record {
  queue_name = "q";
  max_retries = pos 5;
  job_timeout_seconds = pos 300;
  result_ttl_seconds = pos 3600;
  idempotency_ttl_seconds = pos 60;
}

abbrev keyed : EnqueueOptions sample_codec
keyed = record {
  queue_name = none;
  job_id = none;
  idempotency_key = some "k";
  idempotency_ttl_seconds = none;
  max_retries = none;
  job_timeout_seconds = none;
  result_ttl_seconds = none;
  enqueue_time = none;
  scheduled_time = none;
  trace_context = none;
}

abbrev calm : World log_redis
calm = record { db = queued; faults = []; running = []; aborts = [] }

abbrev new_job : NewJob
new_job = record {
  job_id = "n";
  function_name = "handler";
  job_params = "{}";
  enqueue_time = "now";
  status = "PENDING";
  current_retries = "+";
  next_scheduled_run_time = "now";
  max_retries = "+";
  job_timeout_seconds = "+";
  result_ttl_seconds = "+";
  queue_name = "rrq:queue:q";
  result = "null";
  trace_context = "";
  correlation_context = "";
}

abbrev other_job : NewJob
other_job = record new_job { job_id = "o" }

enqueue-refused_example :
    (m : String) × (first_of (checks_of sample_platform sample_environment sample_config "" keyed)
      ≡ some m)
    × (enqueue sample_platform sample_environment sample_config "" tt keyed "n" (pos 7) calm
        ≡ (err (invalid m), calm))
enqueue-refused_example =
    enqueue-refused sample_platform sample_environment sample_config "" tt keyed "n" (pos 7) calm
      refl

enqueue-twice_example :
    enqueue sample_platform sample_environment sample_config "another" tt keyed "o"
      (pos 9)
      (enqueue sample_platform sample_environment sample_config "handler" tt keyed "n"
        (pos 7)
        calm).1
    ≡ (
      ok "n",
      (enqueue sample_platform sample_environment sample_config "handler" tt keyed "n"
          (pos 7)
          calm).1,
    )
unfolding enqueue call enqueue_script claim_key key_eq
enqueue-twice_example =
    enqueue-twice sample_platform sample_environment sample_config "handler" tt keyed "n" (pos 7)
      "another" tt keyed "o" (pos 9) "k" "n" calm refl refl refl refl refl (λ h. refl) refl

-- The second call names another queue and another job, "o", and the entry in the first queue stays.
debounce-once_example :
    let first =
      debounce_script log_redis (queue "q") (debounce "k") new_job (pos 7) (pos 30) queued in
    let second =
      debounce_script log_redis (queue "p") (debounce "k") other_job (pos 9) (pos 30) first.1 in
    (second.0 ≡ (pos 0, "n"))
    × (log_redis.exists second.1 (job "o") ≡ log_redis.exists first.1 (job "o"))
    × (log_redis.hget second.1 (job "o") "status" ≡ log_redis.hget first.1 (job "o") "status")
    × (log_redis.zscore second.1 (queue "q") "n" ≡ log_redis.zscore first.1 (queue "q") "n")
unfolding debounce_script debounce_new key_eq
debounce-once_example =
    debounce-once log_redis "q" "k" "n" 1 new_job (pos 7) (pos 30) queued "p" other_job (pos 9)
      (pos 30) "o" "status" "q" "n" refl (λ h. refl) refl refl

-- The job "a" of the data is not overwritten by a new job of its id.
enqueue-KeepsJobs_example :
    KeepsJobs log_redis running
      (enqueue_script log_redis
        (job "a")
        (queue "q")
        (idempotency_of (some "k"))
        (record new_job { job_id = "a" })
        (pos 7)
        (pos 30)
        running).1
enqueue-KeepsJobs_example =
    enqueue-KeepsJobs log_redis "q" (some "k") (record new_job { job_id = "a" }) (pos 7) (pos 30)
      running

abbrev sample_value : RedisValue
sample_value = record {
  Value = String;
  as_array = λ s. none;
  simple_string = λ s. some s;
  bulk_string = λ s. none;
}

-- The job "a" ends between the first look and the second; the clock ticks once a turn.
abbrev sample_turns : Turns sample_platform String
sample_turns = record {
  world = λ i. record calm {
    db = if leb 1 i then hset (job "a") "status" "COMPLETED" ∷ running else running;
  };
  clock = λ i. i;
  reply = λ i ms o. ok "";
}

abbrev ended : JobResult sample_codec.Json
ended = record { status = Status.completed; result = none; last_error = none }

wait_for_completion-ends_example :
    is_some (
      wait_for_completion sample_platform sample_environment sample_config sample_value sample_turns
        "a" 5 2 6)
    ≡ true
wait_for_completion-ends_example =
    wait_for_completion-ends sample_platform sample_environment sample_config sample_value
      sample_turns "a" 5 2 5 (omega arith)

wait_for_completion-finds_example :
    wait_for_completion sample_platform sample_environment sample_config sample_value sample_turns
      "a" 5 2 2
    ≡ some (ok (some ended))
unfolding get_job_status call key_eq from_str
wait_for_completion-finds_example =
    wait_for_completion-finds sample_platform sample_environment sample_config sample_value
      sample_turns "a" 5 2 1 ended refl refl
      (λ k l. (let at_0 : k ≡ 0 = omega arith in rw (at_0) (refl, omega arith)))
      (λ k ms o. ("", refl))

wait_for_completion-Explains_example :
    Explains sample_platform sample_environment sample_config sample_value sample_turns "a" 5 2 0
      (ok (some ended))
unfolding wait_for_completion wait_loop get_job_status call key_eq from_str
wait_for_completion-Explains_example =
    wait_for_completion-Explains sample_platform sample_environment sample_config sample_value
      sample_turns "a" 5 2 2 (ok (some ended)) refl

abbrev sample_values : JsonValues
sample_values = record {
  Value = String;
  Map = Unit {0};
  shape = λ v. Shape.text v;
  get = λ m k. if k == "user" then some "7" else none;
  trim = λ s. s;
  split_dots = λ s. s ∷ [];
}

abbrev tenants : List (String × String)
tenants = ("tenant", "7") ∷ []

extract_correlation_context-Small_example :
    (1 ≤ length tenants) × (length tenants ≤ 16) × All Small tenants
unfolding extract_correlation_context correlation_loop lookup_value_in_params truncate_utf8
extract_correlation_context-Small_example =
    extract_correlation_context-Small sample_values tt (("tenant", "params.user") ∷ []) none tenants
      refl
