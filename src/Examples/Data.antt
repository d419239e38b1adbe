-- ===== src/Examples/Data.antt =====
-- Concrete codecs, settings, jobs and data for the examples.
use rrq.Prelude.{
  String, false, ◌||◌, Option, none, some, List, [], ◌∷◌, ◌≡◌, ◌≢◌, refl, inl, inr, arith, ◌==◌,
  if◌then◌else◌,
}
use rrq.Prelude.Int.{ℤ, pos}
use rrq.Job.{Codec, Job, eq_ignore_ascii_case, active}
use rrq.Keys.{queue, job, lock, key_eq}
use rrq.Keys
use rrq.Redis.{Write, hset, zadd, set}
use rrq.Redis.Log.{log_redis, int_text, int_of}
use rrq.Tracking.{NoLoss}
use rrq.Platform.{Platform, RrqSettings}

pub data Answer : Type 0 where
  nothing yes : Answer

abbrev pub answer_text : Answer → String
answer_text nothing = "null"
answer_text yes = "true"

abbrev pub answer_of : String → Option Answer
answer_of s = if s == "true" then some yes else if s == "null" then some nothing else none

pub answer_back : (v : Answer) → answer_of (answer_text v) ≡ some v
answer_back nothing = refl
answer_back yes = refl

pub answer_ne_null :
    (v : Answer)
    → v ≢ nothing
    → (answer_text v == "" || eq_ignore_ascii_case (answer_text v) "null") ≡ false
unfolding eq_ignore_ascii_case
answer_ne_null nothing h = absurd (h refl)
answer_ne_null yes h = refl

abbrev unit_text : Unit {0} → String
unit_text u = "{}"

pub unit_back : (u : Unit {0}) → some tt ≡ some u
unit_back u = refl

pub unit_ne_null : (u : Unit {0}) → eq_ignore_ascii_case (unit_text u) "null" ≡ false
unfolding eq_ignore_ascii_case
unit_ne_null u = refl

abbrev unit_of : String → Option (Unit {0})
unit_of s = some tt

-- A time is a number of milliseconds.
abbrev pub sample_codec : Codec
sample_codec = record {
  Json = Answer;
  Params = Unit {0};
  Context = Unit {0};
  Time = ℤ;
  null = nothing;
  no_params = tt;
  json_text = answer_text;
  json_of = answer_of;
  params_text = unit_text;
  params_of = unit_of;
  context_text = unit_text;
  context_of = unit_of;
  to_rfc3339 = int_text;
  parse_from_rfc3339 = int_of;
  int_text = int_text;
  int_of = int_of;
}

abbrev pub sample_platform : Platform
sample_platform = record {
  redis = log_redis;
  codec = sample_codec;
  millis = λ t. t;
  seconds = λ t. t;
  time_at = λ s t. s;
}

abbrev pub sample_settings : RrqSettings ℤ
sample_settings = record {
  default_queue_name = "rrq:queue:default";
  default_dlq_name = "rrq:dlq:default";
  default_max_retries = pos 5;
  default_job_timeout_seconds = pos 300;
  default_lock_timeout_extension_seconds = pos 60;
  default_result_ttl_seconds = pos 3600;
  default_unique_job_lock_ttl_seconds = pos 21600;
  default_runner_name = "python";
  runner_routes = [];
  base_retry_delay_seconds = pos 5;
  max_retry_delay_seconds = pos 3600;
}

abbrev pub sample_job : Job sample_codec
sample_job = record {
  id = "a";
  function_name = "handler";
  job_params = tt;
  enqueue_time = pos 3;
  start_time = none;
  status = active;
  current_retries = pos 0;
  next_scheduled_run_time = none;
  max_retries = pos 5;
  job_timeout_seconds = none;
  result_ttl_seconds = none;
  job_unique_key = none;
  completion_time = none;
  result = some yes;
  last_error = none;
  queue_name = none;
  dlq_name = none;
  worker_id = some "w";
  trace_context = none;
  correlation_context = some tt;
}

-- The job "a" waits in the queue "q".
abbrev pub queued : List (Write ℤ)
queued =
    zadd (queue "q") "a" (pos 3)
    ∷ hset (job "a") "status" "PENDING"
    ∷ hset (job "a") "current_retries" "+"
    ∷ []

-- The worker "w" runs the job "a".
abbrev pub running : List (Write ℤ)
running =
    zadd (Keys.active "w") "a" (pos 4)
    ∷ set (lock "a") "w" (some (pos 360000))
    ∷ hset (job "a") "status" "ACTIVE"
    ∷ hset (job "a") "current_retries" "+"
    ∷ []

pub queued-NoLoss : NoLoss log_redis queued
unfolding key_eq
queued-NoLoss = record { held = λ id alive. inl ("q", grind arith) }

pub running-NoLoss : NoLoss log_redis running
unfolding key_eq
running-NoLoss = record { held = λ id alive. inr ("w", grind arith) }

-- The worker "w" runs the job "a", whose hash has little more than its status.
abbrev pub interrupted : List (Write ℤ)
interrupted =
    zadd (Keys.active "w") "a" (pos 4)
    ∷ hset (job "a") "status" "ACTIVE"
    ∷ hset (job "a") "enqueue_time" "+iii"
    ∷ []

-- What is read of it.
abbrev pub interrupted_job : Job sample_codec
interrupted_job = record {
  id = "a";
  function_name = "";
  job_params = tt;
  enqueue_time = pos 3;
  start_time = none;
  status = active;
  current_retries = pos 0;
  next_scheduled_run_time = none;
  max_retries = pos 5;
  job_timeout_seconds = none;
  result_ttl_seconds = none;
  job_unique_key = none;
  completion_time = none;
  result = none;
  last_error = none;
  queue_name = none;
  dlq_name = none;
  worker_id = none;
  trace_context = none;
  correlation_context = none;
}
