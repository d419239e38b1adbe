-- ===== src/Job.antt =====
-- Jobs as records and as Redis hashes: rrq-rs/orchestrator/src/job.rs, and `build_job_mapping`,
-- `parse_json`, `parse_datetime` and `parse_job_map` of rrq-rs/orchestrator/src/store.rs.
pub mod RoundTrip
use Prim.Native.Char.{code}
use rrq.Prelude.{
  ℕ, ◌+◌, String, Bool, true, false, ◌&&◌, ◌||◌, Option, none, some, List, [], ◌∷◌, ◌++◌, ◌≡◌, ◌≢◌,
  ◌==◌, if◌then◌else◌, nat_eq, leb, unwrap_or,
}
use rrq.Prelude.Int.{ℤ, pos}

pub data JobStatus : Type 0 where
  pending active completed failed retrying cancelled : JobStatus

unfoldable pub as_str : JobStatus → String
as_str pending = "PENDING"
as_str active = "ACTIVE"
as_str completed = "COMPLETED"
as_str failed = "FAILED"
as_str retrying = "RETRYING"
as_str cancelled = "CANCELLED"

unfoldable pub parse : String → Option JobStatus
parse value =
    if value == "PENDING"
    then some pending
    else if value == "ACTIVE"
    then some active
    else if value == "COMPLETED"
    then some completed
    else if value == "FAILED"
    then some failed
    else if value == "RETRYING"
    then some retrying
    else if value == "CANCELLED"
    then some cancelled
    else none

abbrev lower : ℕ → ℕ
lower c = if leb b'A' c && leb c b'Z' then c + 32 else c

-- `str::eq_ignore_ascii_case`.
unfoldable pub eq_ignore_ascii_case : String → String → Bool
eq_ignore_ascii_case String.[] String.[] = true
eq_ignore_ascii_case (String.◌∷◌ c s) (String.◌∷◌ d t) =
    nat_eq (lower (code c)) (lower (code d)) && eq_ignore_ascii_case s t
eq_ignore_ascii_case _ _ = false

-- What the program takes from serde_json, chrono and the integers' formatting.
pub record Codec : Type 1 where
  pub Json : Type 0
  pub Params : Type 0
  pub Context : Type 0
  pub Time : Type 0
  pub null : Json
  pub no_params : Params
  pub json_text : Json → String
  pub json_of : String → Option Json
  pub params_text : Params → String
  pub params_of : String → Option Params
  pub context_text : Context → String
  pub context_of : String → Option Context
  pub to_rfc3339 : Time → String
  pub parse_from_rfc3339 : String → Option Time
  pub int_text : ℤ → String
  pub int_of : String → Option ℤ

pub record Job (c : Codec) : Type 0 where
  pub id : String
  pub function_name : String
  pub job_params : c.Params
  pub enqueue_time : c.Time
  pub start_time : Option c.Time
  pub status : JobStatus
  pub current_retries : ℤ
  pub next_scheduled_run_time : Option c.Time
  pub max_retries : ℤ
  pub job_timeout_seconds : Option ℤ
  pub result_ttl_seconds : Option ℤ
  pub job_unique_key : Option String
  pub completion_time : Option c.Time
  pub result : Option c.Json
  pub last_error : Option String
  pub queue_name : Option String
  pub dlq_name : Option String
  pub worker_id : Option String
  pub trace_context : Option c.Context
  pub correlation_context : Option c.Context

abbrev pub Fields : Type 0
Fields = List (String × String)

-- `if let Some(value) = value { mapping.push((name, show(value))) }`.
unfoldable pub optional : {A : Type 0} → String → (A → String) → Option A → Fields
optional name show none = []
optional name show (some a) = (name, show a) ∷ []

-- `raw.get(name)` where the map's entries are listed.
unfoldable pub field : Fields → String → Option String
field [] name = none
field ((k, v) ∷ rest) name = if k == name then some v else field rest name

abbrev pub and_then : {A B : Type 0} → Option A → (A → Option B) → Option B
and_then none f = none
and_then (some a) f = f a

abbrev pub null_or_empty : String → Bool
null_or_empty raw = raw == "" || eq_ignore_ascii_case raw "null"

module _ (c : Codec) where
  open c use {
    Json, Context, null, no_params, json_text, json_of, params_text, params_of, context_text,
    context_of, to_rfc3339, parse_from_rfc3339, int_text, int_of,
  }

  -- `serde_json::to_string(&job.result)`, for an `Option<Value>`.
  abbrev pub result_text : Option Json → String
  result_text none = "null"
  result_text (some v) = json_text v

  -- `parse_json` of store.rs.
  abbrev pub parse_json : String → Option Json
  parse_json raw = if null_or_empty raw then none else json_of raw

  -- How `parse_job_map` reads the two contexts.
  abbrev pub parse_context : String → Option Context
  parse_context value = if eq_ignore_ascii_case value "null" then none else context_of value

  abbrev pub text : String → String
  text s = s

  unfoldable pub build_job_mapping : Job c → Fields
  build_job_mapping j =
      ("id", j.id)
      ∷ ("function_name", j.function_name)
      ∷ ("job_params", params_text j.job_params)
      ∷ ("enqueue_time", to_rfc3339 j.enqueue_time)
      ∷ ("status", as_str j.status)
      ∷ ("current_retries", int_text j.current_retries)
      ∷ ("max_retries", int_text j.max_retries)
      ∷ ("result", result_text j.result)
      ∷ (optional "queue_name" text j.queue_name
          ++ (optional "next_scheduled_run_time" to_rfc3339 j.next_scheduled_run_time
              ++ (optional "start_time" to_rfc3339 j.start_time
                  ++ (optional "job_timeout_seconds" int_text j.job_timeout_seconds
                      ++ (optional "result_ttl_seconds" int_text j.result_ttl_seconds
                          ++ (optional "job_unique_key" text j.job_unique_key
                              ++ (optional "completion_time" to_rfc3339 j.completion_time
                                  ++ (optional "last_error" text j.last_error
                                      ++ (optional "dlq_name" text j.dlq_name
                                          ++ (optional "worker_id" text j.worker_id
                                              ++ (optional "trace_context" context_text
                                                    j.trace_context
                                                  ++ optional "correlation_context" context_text
                                                      j.correlation_context)))))))))))

  -- `none` is the error: a status that is missing or unknown, or no readable enqueue time.
  unfoldable pub parse_job_map : (String → Option String) → String → ℤ → Option (Job c)
  parse_job_map raw fallback_id default_max_retries =
      and_then (and_then (raw "status") parse) (λ st.
        and_then (and_then (raw "enqueue_time") parse_from_rfc3339) (λ enqueued. some (record {
          id = unwrap_or (raw "id") fallback_id;
          function_name = unwrap_or (raw "function_name") "";
          job_params = unwrap_or (and_then (raw "job_params") params_of) no_params;
          enqueue_time = enqueued;
          start_time = and_then (raw "start_time") parse_from_rfc3339;
          status = st;
          current_retries = unwrap_or (and_then (raw "current_retries") int_of) (pos 0);
          next_scheduled_run_time = and_then (raw "next_scheduled_run_time") parse_from_rfc3339;
          max_retries = unwrap_or (and_then (raw "max_retries") int_of) default_max_retries;
          job_timeout_seconds = and_then (raw "job_timeout_seconds") int_of;
          result_ttl_seconds = and_then (raw "result_ttl_seconds") int_of;
          job_unique_key = raw "job_unique_key";
          completion_time = and_then (raw "completion_time") parse_from_rfc3339;
          result = and_then (raw "result") parse_json;
          last_error = raw "last_error";
          queue_name = raw "queue_name";
          dlq_name = raw "dlq_name";
          worker_id = raw "worker_id";
          trace_context = and_then (raw "trace_context") parse_context;
          correlation_context = and_then (raw "correlation_context") parse_context;
        })))
