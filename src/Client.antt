-- ===== src/Client.antt =====
-- `RRQClient::enqueue` of rrq-rs/orchestrator/src/client.rs. The fresh id and the current time are
-- arguments; spans and metrics are left out.
pub mod Queued
use rrq.Prelude.{String, Bool, true, false, Option, none, some, ◌&&◌, if◌then◌else◌, unwrap_or}
use rrq.Prelude.Int.{ℤ, pos, ◌+ℤ◌, leb_ℤ, ltb_ℤ, max_ℤ, checked_add}
use rrq.Keys.{Key, unique, normalize_queue_name}
use rrq.Redis.{Redis}
use rrq.Redis.Calls.{Io, Result, ok, err, invalid, call, pure, fail, attempt, ◌>>=◌, ◌>>◌}
use rrq.Job.{Job, pending, and_then}
use rrq.Platform.{Platform, RrqSettings}
use rrq.Store.{atomic_enqueue_job, acquire_unique_job_lock, release_unique_job_lock}

-- What the client takes of chrono, of Redis' TTL and of the tracing library.
pub record ClientEnvironment (p : Platform) : Type 1 where
  pub Duration : Type 0
  pub num_seconds : Duration → ℤ
  pub add_duration : p.codec.Time → Duration → p.codec.Time
  pub add_seconds : p.codec.Time → ℤ → p.codec.Time
  -- `a.signed_duration_since(b).num_seconds()`.
  pub seconds_since : p.codec.Time → p.codec.Time → ℤ
  pub later : p.codec.Time → p.codec.Time → p.codec.Time
  pub ttl : p.redis.Db → Key → ℤ
  pub inject_trace_context : Option p.codec.Context → Option p.codec.Context
  pub correlate : p.codec.Params → Option p.codec.Context → Option p.codec.Context

module _ (p : Platform) (env : ClientEnvironment p)
    (settings : RrqSettings p.redis.floats.F64) where
  open p use {redis, codec}
  open codec use {Params, Context, Time}

  -- `EnqueueOptions` of the client.
  pub record Options : Type 0 where
    pub queue_name : Option String
    pub job_id : Option String
    pub unique_key : Option String
    pub max_retries : Option ℤ
    pub job_timeout_seconds : Option ℤ
    pub defer_until : Option Time
    pub defer_by : Option env.Duration
    pub result_ttl_seconds : Option ℤ
    pub trace_context : Option Context

  -- When the job is to run, and the TTL of its unique lock.
  abbrev pub deferred : Option Time → Option env.Duration → Time → ℤ → Time × ℤ
  deferred (some until) by now ttl =
      let diff = env.seconds_since until now in
      (until, (if ltb_ℤ (pos 0) diff then max_ℤ ttl (diff +ℤ pos 1) else ttl))
  deferred none (some by) now ttl =
      (env.add_duration now by, max_ℤ ttl (max_ℤ (env.num_seconds by) (pos 0) +ℤ pos 1))
  deferred none none now ttl = (now, ttl)

  unfoldable pub get_lock_ttl : String → Io redis ℤ
  get_lock_ttl unique_key = call (λ db.
      ((let ttl = env.ttl db (unique unique_key) in if ltb_ℤ (pos 0) ttl then ttl else pos 0), db))

  abbrev pub no_sooner : ℤ → Time → Time → Time
  no_sooner remaining run_time now =
      if ltb_ℤ (pos 0) remaining
      then env.later run_time (env.add_seconds now remaining)
      else run_time

  -- The unique lock: whether it was acquired, and when the job is to run.
  unfoldable pub lock_unique : Option String → String → ℤ → Time → Time → Io redis (Bool × Time)
  lock_unique none job_id ttl run_time now = pure (false, run_time)
  lock_unique (some key) job_id ttl run_time now = do
    remaining_ttl ← get_lock_ttl key
    if ltb_ℤ (pos 0) remaining_ttl then pure (false, no_sooner remaining_ttl run_time now) else (do
      acquired ← acquire_unique_job_lock p key job_id ttl
      if acquired
          then pure (true, run_time)
          else (do remaining ← get_lock_ttl key; pure (false, no_sooner remaining run_time now)))

  abbrev pub job_of : String → Params → Options → String → String → ℤ → Time → Time → Job codec
  job_of function_name params options job_id queue_name timeout now run_time =
      let trace_context = env.inject_trace_context options.trace_context in
      record {
        id = job_id;
        function_name = function_name;
        job_params = params;
        enqueue_time = now;
        start_time = none;
        status = pending;
        current_retries = pos 0;
        next_scheduled_run_time = some run_time;
        max_retries = unwrap_or options.max_retries settings.default_max_retries;
        job_timeout_seconds = some timeout;
        result_ttl_seconds =
            some (unwrap_or options.result_ttl_seconds settings.default_result_ttl_seconds);
        job_unique_key = options.unique_key;
        completion_time = none;
        result = none;
        last_error = none;
        queue_name = some queue_name;
        dlq_name = none;
        worker_id = none;
        trace_context = trace_context;
        correlation_context = env.correlate params trace_context;
      }

  abbrev pub release_if : Bool → Option String → Io redis Unit
  release_if acquired none = pure tt
  release_if acquired (some key) =
      if acquired then (do attempt (release_unique_job_lock p key); pure tt) else pure tt

  -- What follows the enqueue script, by its result.
  abbrev pub enqueued : Job codec → Bool → Option String → Result Bool → Io redis (Job codec)
  enqueued j acquired key (ok true) = pure j
  enqueued j acquired key (ok false) = do
    release_if acquired key
    fail (invalid "job_id already exists")
  enqueued j acquired key (err e) = do release_if acquired key; fail e

  abbrev pub store_job : Job codec → String → Time → Bool → Option String → Io redis (Job codec)
  store_job j queue_name run_time acquired key = do
    result ← attempt (atomic_enqueue_job p j queue_name (p.millis run_time))
    enqueued j acquired key result

  abbrev pub with_floor : {A : Type 0} → Option ℤ → (ℤ → Io redis A) → Io redis A
  with_floor none rest = fail (invalid "lock_ttl_seconds overflow")
  with_floor (some floor) rest =
      if leb_ℤ floor (pos 0) then fail (invalid "lock_ttl_seconds must be positive") else rest floor

  abbrev pub queue_of : Options → String
  queue_of options = normalize_queue_name (unwrap_or options.queue_name settings.default_queue_name)

  abbrev pub timeout_of : Options → ℤ
  timeout_of options = unwrap_or options.job_timeout_seconds settings.default_job_timeout_seconds

  abbrev pub lock_floor : Options → Option ℤ
  lock_floor options =
      and_then (checked_add (timeout_of options) settings.default_lock_timeout_extension_seconds)
        (λ value. checked_add value (pos 1))

  abbrev pub planned : Options → Time → ℤ → Time × ℤ
  planned options now floor =
      deferred options.defer_until options.defer_by now
        (max_ℤ settings.default_unique_job_lock_ttl_seconds floor)

  -- What follows the checks.
  abbrev pub lock_and_store : String → Params → Options → String → Time → ℤ → Io redis (Job codec)
  lock_and_store function_name params options job_id now floor = do
    locked ←
        lock_unique options.unique_key job_id (planned options now floor).1
          (planned options now floor).0 now
    store_job
        (job_of function_name params options job_id (queue_of options) (timeout_of options) now
          locked.1)
        (queue_of options) locked.1 locked.0 options.unique_key

  unfoldable pub enqueue : String → Params → Options → String → Time → Io redis (Job codec)
  enqueue function_name params options new_id now =
      if leb_ℤ (timeout_of options) (pos 0)
      then fail (invalid "job_timeout_seconds must be positive")
      else with_floor (lock_floor options)
          (lock_and_store function_name params options (unwrap_or options.job_id new_id) now)
