-- ===== src/Job/RoundTrip.antt =====
-- `build_job_mapping` and `parse_job_map` of rrq-rs/orchestrator/src/store.rs, one after the other.
use rrq.Prelude.{
  String, Option, none, some, ◌++◌, ◌≡◌, ◌≢◌, ◌==◌, ◌||◌, refl, false, ap, if◌then◌else◌, arith,
  or_else,
}
use rrq.Prelude.Int.{ℤ, ◌≤ℤ◌, i64_min, i64_max}
use rrq.Job.{
  JobStatus, pending, active, completed, failed, retrying, cancelled, as_str, parse, Codec, Job,
  Fields, optional, field, and_then, build_job_mapping, parse_job_map, result_text, parse_json,
  parse_context, text, eq_ignore_ascii_case,
}

-- Every status is read back from its text.
pub parse-as_str : (s : JobStatus) → parse (as_str s) ≡ some s
unfolding parse as_str
parse-as_str pending = refl
parse-as_str active = refl
parse-as_str completed = refl
parse-as_str failed = refl
parse-as_str retrying = refl
parse-as_str cancelled = refl

abbrev shown : {A : Type 0} → (A → String) → Option A → Option String
shown show none = none
shown show (some a) = some (show a)

field-optional :
    {A : Type 0} (k name : String) (show : A → String) (o : Option A) (rest : Fields)
    → field (optional k show o ++ rest) name
      ≡ (if k == name then or_else (shown show o) (field rest name) else field rest name)
unfolding field optional
field-optional k name show o rest = ground arith

field-optional_last :
    {A : Type 0} (k name : String) (show : A → String) (o : Option A)
    → field (optional k show o) name ≡ (if k == name then shown show o else none)
unfolding field optional
field-optional_last k name show o = ground arith

or_else-none : (o : Option String) → or_else o none ≡ o
or_else-none none = refl
or_else-none (some a) = refl

-- `Option` values of which those that are there have a property.
abbrev pub Given : {A : Type 0} → (A → Type 0) → Option A → Type 0
Given P none = Unit {0}
Given P (some a) = P a

and_then-shown :
    {A : Type 0} (show : A → String) (read : String → Option A) (o : Option A)
    → Given (λ a. read (show a) ≡ some a) o
    → and_then (shown show o) read ≡ o
and_then-shown show read none h = refl
and_then-shown show read (some a) h = h

module _ (c : Codec) where
  open c use {
    json_text, json_of, params_text, params_of, context_text, context_of, to_rfc3339,
    parse_from_rfc3339, int_text, int_of,
  }

  -- What is relied on of the libraries: an i64 is read back from its text, and no value but the null
  -- value and no context is written as "null", in any case of its letters.
  pub record IsCodec : Type 0 where
    pub int-text : (n : ℤ) → i64_min ≤ℤ n → n ≤ℤ i64_max → int_of (int_text n) ≡ some n
    pub json-text-ne-null :
        (v : c.Json)
        → v ≢ c.null
        → (json_text v == "" || eq_ignore_ascii_case (json_text v) "null") ≡ false
    pub context-text-ne-null :
        (x : c.Context) → eq_ignore_ascii_case (context_text x) "null" ≡ false

  abbrev pub InI64 : ℤ → Type 0
  InI64 n = (i64_min ≤ℤ n) × (n ≤ℤ i64_max)

  abbrev pub TimeBack : c.Time → Type 0
  TimeBack t = parse_from_rfc3339 (to_rfc3339 t) ≡ some t

  abbrev pub ContextBack : c.Context → Type 0
  ContextBack x = context_of (context_text x) ≡ some x

  -- The numbers of the job are i64, and each of its other values is one that its library reads back
  -- from the text that it has written: not every JSON number and nesting is, nor every year.
  pub record IsReadable (j : Job c) : Type 0 where
    pub params : params_of (params_text j.job_params) ≡ some j.job_params
    pub result : Given (λ v. json_of (json_text v) ≡ some v) j.result
    pub enqueue_time : TimeBack j.enqueue_time
    pub start_time : Given TimeBack j.start_time
    pub next_time : Given TimeBack j.next_scheduled_run_time
    pub completion_time : Given TimeBack j.completion_time
    pub trace : Given ContextBack j.trace_context
    pub correlation : Given ContextBack j.correlation_context
    pub current_retries : InI64 j.current_retries
    pub max_retries : InI64 j.max_retries
    pub job_timeout : Given InI64 j.job_timeout_seconds
    pub result_ttl : Given InI64 j.result_ttl_seconds

  time_back :
      (o : Option c.Time) → Given TimeBack o → and_then (shown to_rfc3339 o) parse_from_rfc3339 ≡ o
  time_back = and_then-shown to_rfc3339 parse_from_rfc3339

  text_back : (o : Option String) → shown (text c) o ≡ o
  text_back none = refl
  text_back (some s) = refl

  module _ (codec : IsCodec) where
    int_back : (o : Option ℤ) → Given InI64 o → and_then (shown int_text o) int_of ≡ o
    int_back none h = refl
    int_back (some n) (low, high) = codec.int-text n low high

    context_back :
        (o : Option c.Context)
        → Given ContextBack o
        → and_then (shown context_text o) (parse_context c) ≡ o
    context_back none h = refl
    context_back (some x) h = rw (codec.context-text-ne-null x) h

    result_back :
        (o : Option c.Json)
        → Given (λ v. json_of (json_text v) ≡ some v) o
        → o ≢ some c.null
        → parse_json c (result_text c o) ≡ o
    unfolding eq_ignore_ascii_case
    result_back none back h = refl
    result_back (some v) back h = rw (codec.json-text-ne-null v (λ e. h (ap some e))) back

    -- The hash that a job is written to is read back as the job, whatever the defaults of the reader,
    -- if its numbers are i64, its other values are read back each from its own text, no other value than
    -- the JSON null and no context is written as "null", and its result is not the JSON null.
    pub parse-build_job_mapping :
        (j : Job c) (fallback : String) (default : ℤ)
        → IsReadable j
        → j.result ≢ some c.null
        → parse_job_map c (field (build_job_mapping c j)) fallback default ≡ some j
    unfolding parse_job_map build_job_mapping field
    parse-build_job_mapping j fallback default r h = simp (
      field-optional,
      field-optional_last,
      or_else-none,
      parse-as_str,
      r.enqueue_time,
      codec.int-text j.current_retries r.current_retries.0 r.current_retries.1,
      codec.int-text j.max_retries r.max_retries.0 r.max_retries.1,
      r.params,
      time_back j.start_time r.start_time,
      time_back j.next_scheduled_run_time r.next_time,
      time_back j.completion_time r.completion_time,
      int_back j.job_timeout_seconds r.job_timeout,
      int_back j.result_ttl_seconds r.result_ttl,
      text_back,
      context_back j.trace_context r.trace,
      context_back j.correlation_context r.correlation,
      result_back j.result r.result h,
    )
