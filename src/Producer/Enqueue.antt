-- ===== src/Producer/Enqueue.antt =====
-- `enqueue`, `enqueue_with_rate_limit`, `enqueue_with_debounce` and `get_job_status` of
-- rrq-rs/producer/src/lib.rs. The fresh id and the current time are arguments.
pub mod Bounds
pub mod Checks
use Prim.Native.String
use rrq.Prelude.{
  ℕ, zero, suc, ◌+◌, ◌/◌, String, Bool, true, false, Option, none, some, ◌==◌, leb, if◌then◌else◌,
  unwrap_or,
}
use rrq.Prelude.Int.{ℤ, pos, negsuc, leb_ℤ, ltb_ℤ}
use rrq.Keys.{
  Key, job, idempotency, format_queue_key, format_rate_limit_key, format_debounce_key,
  normalize_queue_name,
}
use rrq.Redis.Calls.{Io, invalid, call, pure, fail, ◌>>=◌}
use rrq.Job.{Codec, eq_ignore_ascii_case, and_then}
use rrq.Platform.{Platform}
use rrq.Producer.Scripts.{
  NewJob, enqueue_script, rate_limit_script, debounce_script, idempotency_of,
}

-- What the producer takes from the standard library, chrono and the tracing library. The result of
-- `correlate` is `extract_correlation_context` on the producer's mappings.
pub record Environment (p : Platform) : Type 1 where
  pub Duration : Type 0
  pub trim : String → String
  pub ceil_seconds : Duration → ℤ
  pub add_duration : p.codec.Time → Duration → p.codec.Time
  -- `a.signed_duration_since(b).num_milliseconds()`.
  pub milliseconds_since : p.codec.Time → p.codec.Time → ℤ
  pub merge_trace_context : Option p.codec.Context → Option p.codec.Context
  pub correlate : p.codec.Params → Option p.codec.Context → Option p.codec.Context

pub record ProducerConfig : Type 0 where
  pub queue_name : String
  pub max_retries : ℤ
  pub job_timeout_seconds : ℤ
  pub result_ttl_seconds : ℤ
  pub idempotency_ttl_seconds : ℤ

pub record EnqueueOptions (c : Codec) : Type 0 where
  pub queue_name : Option String
  pub job_id : Option String
  pub idempotency_key : Option String
  pub idempotency_ttl_seconds : Option ℤ
  pub max_retries : Option ℤ
  pub job_timeout_seconds : Option ℤ
  pub result_ttl_seconds : Option ℤ
  pub enqueue_time : Option c.Time
  pub scheduled_time : Option c.Time
  pub trace_context : Option c.Context

-- `JobStatus` of the producer.
pub data Status : Type 0 where
  pending active completed failed retrying unknown : Status

unfoldable pub from_str : String → Status
from_str s =
    if s == "PENDING"
    then pending
    else if s == "ACTIVE"
    then active
    else if s == "COMPLETED"
    then completed
    else if s == "FAILED"
    then failed
    else if s == "RETRYING"
    then retrying
    else unknown

pub record JobResult (Json : Type 0) : Type 0 where
  pub status : Status
  pub result : Option Json
  pub last_error : Option String

-- `a.saturating_add(b)` of two i64 that are not negative.
abbrev pub saturating_add : ℕ → ℕ → ℕ
saturating_add a b = if leb (a + b) 9223372036854775807 then a + b else 9223372036854775807

-- The TTL of an idempotency key, which covers the time until a deferred job runs. `deferral_ms` is
-- the time between enqueuing and running.
unfoldable pub idempotency_ttl : ℤ → ℤ → ℤ
idempotency_ttl ttl (pos deferral_ms) =
    let deferral_seconds = pos (saturating_add deferral_ms 999 / 1000) in
    if ltb_ℤ (pos 0) (pos deferral_ms)
    then (if ltb_ℤ ttl deferral_seconds then deferral_seconds else ttl)
    else ttl
idempotency_ttl ttl (negsuc n) = ttl

module _ (p : Platform) (env : Environment p) (config : ProducerConfig) where
  open p use {redis, codec}
  open redis use {F64, Db, hget, exists}
  open codec use {
    Json, Params, Context, Time, to_rfc3339, int_text, params_text, context_text, json_of,
  }

  abbrev pub Options : Type 0
  Options = EnqueueOptions codec

  -- `validate_name`, and then the rest.
  abbrev pub named : {A : Type 0} → String → String → Io redis A → Io redis A
  named label value rest =
      if env.trim value == "" then fail (invalid (String.◌++◌ label " cannot be empty")) else rest

  abbrev text_or_empty : Option Context → String
  text_or_empty none = ""
  text_or_empty (some x) = context_text x

  -- The arguments of the scripts.
  abbrev pub described : String → Params → Options → String → String → ℤ → Time → Time → NewJob
  described function_name params options job_id queue_name job_timeout_seconds enqueue_time
        scheduled_time =
      let trace_context = env.merge_trace_context options.trace_context in
      record {
        job_id = job_id;
        function_name = function_name;
        job_params = params_text params;
        enqueue_time = to_rfc3339 enqueue_time;
        status = "PENDING";
        current_retries = int_text (pos 0);
        next_scheduled_run_time = to_rfc3339 scheduled_time;
        max_retries = int_text (unwrap_or options.max_retries config.max_retries);
        job_timeout_seconds = int_text job_timeout_seconds;
        result_ttl_seconds =
            int_text (unwrap_or options.result_ttl_seconds config.result_ttl_seconds);
        queue_name = normalize_queue_name queue_name;
        result = "null";
        trace_context = text_or_empty trace_context;
        correlation_context = text_or_empty (env.correlate params trace_context);
      }

  abbrev pub timeout_of : Options → ℤ
  timeout_of options = unwrap_or options.job_timeout_seconds config.job_timeout_seconds

  abbrev pub answered : ℤ × String → Io redis String
  answered (pos (suc zero), id) = pure id
  answered (pos zero, id) = pure id
  answered (negsuc zero, id) = fail (invalid "job_id already exists")
  answered _ = fail (invalid "unexpected enqueue status")

  -- The checks on the idempotency key, and then the rest with the key and its TTL.
  abbrev pub with_idempotency :
      {A : Type 0} → Options → Time → Time → (Option String → ℤ → Io redis A) → Io redis A
  with_idempotency options enqueue_time scheduled_time rest = elim options.idempotency_key [
    | none ↦ rest none (unwrap_or options.idempotency_ttl_seconds config.idempotency_ttl_seconds)
    | some key ↦ named "idempotency_key" key (
        let ttl = unwrap_or options.idempotency_ttl_seconds config.idempotency_ttl_seconds in
        if leb_ℤ ttl (pos 0)
        then fail (invalid "idempotency_ttl_seconds must be positive")
        else rest (some key)
            (idempotency_ttl ttl (env.milliseconds_since scheduled_time enqueue_time)))
  ]

  unfoldable pub enqueue : String → Params → Options → String → Time → Io redis String
  enqueue function_name params options new_id now =
      let queue_name = unwrap_or options.queue_name config.queue_name in
      let job_id = unwrap_or options.job_id new_id in
      let enqueue_time = unwrap_or options.enqueue_time now in
      let scheduled_time = unwrap_or options.scheduled_time enqueue_time in
      named "function_name" function_name (
        named "queue_name" queue_name (
          if leb_ℤ (timeout_of options) (pos 0)
          then fail (invalid "job_timeout_seconds must be positive")
          else with_idempotency options enqueue_time scheduled_time (λ key ttl. do
            answer ← call (
                enqueue_script redis (job job_id) (format_queue_key queue_name) (idempotency_of key)
                  (described function_name params options job_id queue_name (timeout_of options)
                    enqueue_time scheduled_time)
                  (p.millis scheduled_time) ttl)
            answered answer)))

  abbrev pub rate_limited : ℤ × String → Io redis (Option String)
  rate_limited (pos (suc zero), id) = pure (some id)
  rate_limited (pos (suc (suc zero)), id) = pure none
  rate_limited (negsuc zero, id) = fail (invalid "job_id already exists")
  rate_limited _ = fail (invalid "unexpected enqueue status")

  unfoldable pub enqueue_with_rate_limit :
      String → Params → String → env.Duration → Options → String → Time → Io redis (Option String)
  enqueue_with_rate_limit function_name params rate_limit_key rate_limit_window options new_id now =
      let queue_name = unwrap_or options.queue_name config.queue_name in
      let job_id = unwrap_or options.job_id new_id in
      let enqueue_time = unwrap_or options.enqueue_time now in
      let scheduled_time = unwrap_or options.scheduled_time enqueue_time in
      let ttl_seconds = env.ceil_seconds rate_limit_window in
      named "function_name" function_name (
        named "rate_limit_key" rate_limit_key (
          named "queue_name" queue_name (
            if leb_ℤ (timeout_of options) (pos 0)
            then fail (invalid "job_timeout_seconds must be positive")
            else if leb_ℤ ttl_seconds (pos 0)
            then fail (invalid "rate_limit_window must be positive")
            else (do
              answer ← call (
                  rate_limit_script redis (job job_id) (format_queue_key queue_name)
                    (format_rate_limit_key rate_limit_key)
                    (described function_name params options job_id queue_name (timeout_of options)
                      enqueue_time scheduled_time)
                    (p.millis scheduled_time) ttl_seconds)
              rate_limited answer))))

  unfoldable pub enqueue_with_debounce :
      String → Params → String → env.Duration → Options → String → Time → Io redis String
  enqueue_with_debounce function_name params debounce_key debounce_window options new_id now =
      let queue_name = unwrap_or options.queue_name config.queue_name in
      let job_id = unwrap_or options.job_id new_id in
      let enqueue_time = unwrap_or options.enqueue_time now in
      let scheduled_time =
        unwrap_or options.scheduled_time (env.add_duration enqueue_time debounce_window) in
      let ttl_seconds = env.ceil_seconds debounce_window in
      named "function_name" function_name (
        named "debounce_key" debounce_key (
          named "queue_name" queue_name (
            if leb_ℤ (timeout_of options) (pos 0)
            then fail (invalid "job_timeout_seconds must be positive")
            else if leb_ℤ ttl_seconds (pos 0)
            then fail (invalid "debounce_window must be positive")
            else (do
              answer ← call (
                  debounce_script redis (format_queue_key queue_name)
                    (format_debounce_key debounce_key)
                    (described function_name params options job_id queue_name (timeout_of options)
                      enqueue_time scheduled_time)
                    (p.millis scheduled_time) ttl_seconds)
              answered answer))))

  abbrev pub parse_result : String → Option Json
  parse_result text = if text == "" then none else if text == "null" then none else json_of text

  abbrev status_of : Option String → Status
  status_of none = unknown
  status_of (some s) = from_str s

  abbrev pub job_result : Db → String → JobResult Json
  job_result db job_id = record {
    status = status_of (hget db (job job_id) "status");
    result = and_then (hget db (job job_id) "result") parse_result;
    last_error = hget db (job job_id) "last_error";
  }

  unfoldable pub get_job_status : String → Io redis (Option (JobResult Json))
  get_job_status job_id =
      call (λ db. (if exists db (job job_id) then some (job_result db job_id) else none, db))
