-- ===== src/Worker/Cron.antt =====
-- Cron jobs: rrq-rs/config/src/cron.rs, and a round of `cron_loop` of
-- rrq-rs/orchestrator/src/worker.rs. The parser of schedules and their next times are the cron
-- crate's; chrono's times are compared by `at_or_after`. The sleep between the rounds is left out.
pub mod Rounds
pub mod Times
use Prim.Native.String
use rrq.Prelude.{
  ℕ, zero, suc, String, Bool, true, false, Option, none, some, List, [], ◌∷◌, if◌then◌else◌,
}
use rrq.Prelude.Int.{ℤ, pos, ltb_ℤ}
use rrq.Redis.Calls.{Io, Result, ok, err, pure, attempt, ◌>>=◌, ◌>>◌}
use rrq.Platform.{Platform, RrqSettings}
use rrq.Client.{ClientEnvironment, Options, enqueue, get_lock_ttl}

pub record CronEnvironment (Time : Type 0) : Type 1 where
  pub Schedule : Type 0
  -- `Schedule::from_str`, and `schedule.after(&t).next()`.
  pub from_str : String → Option Schedule
  pub next_after : Schedule → Time → Option Time
  -- `with_second(0)` and `with_nanosecond(0)`.
  pub start_of_minute : Time → Time
  -- `a >= b`.
  pub at_or_after : Time → Time → Bool

pub record CronJob (Params Time : Type 0) : Type 0 where
  pub function_name : String
  pub schedule : String
  pub params : Params
  pub queue_name : Option String
  pub unique : Bool
  pub next_run_time : Option Time

-- `DueCronJob`.
pub record DueCronJob (Params : Type 0) : Type 0 where
  pub index : ℕ
  pub function_name : String
  pub params : Params
  pub queue_name : Option String
  pub unique_key : Option String

-- `get_mut(index)`, and a change of what is there.
abbrev pub update_at : {A : Type 0} → ℕ → (A → A) → List A → List A
update_at n f [] = []
update_at zero f (x ∷ xs) = f x ∷ xs
update_at (suc n) f (x ∷ xs) = x ∷ update_at n f xs

module _ {Time : Type 0} (cron : CronEnvironment Time) where
  open cron use {next_after, at_or_after}

  abbrev pub next_of : Option cron.Schedule → Time → Option Time
  next_of none base = none
  next_of (some schedule) base = next_after schedule base

  abbrev pub is_due : Option Time → Time → Bool
  is_due none now = true
  is_due (some next) now = at_or_after now next

module _ {Params Time : Type 0} (cron : CronEnvironment Time) where
  open cron use {from_str, start_of_minute}

  abbrev pub set_next : Option Time → CronJob Params Time → CronJob Params Time × Bool
  set_next none job = (job, false)
  set_next (some next) job = (record job { next_run_time = some next }, true)

  -- The job afterwards, and whether it was scheduled: an error leaves the job as it was.
  unfoldable pub schedule_next : CronJob Params Time → Time → CronJob Params Time × Bool
  schedule_next job now = set_next (next_of cron (from_str job.schedule) (start_of_minute now)) job

  abbrev pub due_scheduled : CronJob Params Time × Bool → Time → CronJob Params Time × Option Bool
  due_scheduled (job, false) now = (job, none)
  due_scheduled (job, true) now = (job, some (is_due cron job.next_run_time now))

  abbrev pub due_by : Option Time → CronJob Params Time → Time → CronJob Params Time × Option Bool
  due_by none job now = due_scheduled (schedule_next job now) now
  due_by (some next) job now = (job, some (is_due cron (some next) now))

  -- The job afterwards, and whether it is due; `none` is the error.
  unfoldable pub due : CronJob Params Time → Time → CronJob Params Time × Option Bool
  due job now = due_by job.next_run_time job now

  abbrev pub due_job : ℕ → CronJob Params Time → DueCronJob Params
  due_job index job = record {
    index = index;
    function_name = job.function_name;
    params = job.params;
    queue_name = job.queue_name;
    unique_key = if job.unique then some (String.◌++◌ "cron:" job.function_name) else none;
  }

  abbrev pub push_due :
      ℕ → CronJob Params Time × Option Bool → List (DueCronJob Params) → List (DueCronJob Params)
  push_due index (job, some true) rest = due_job index job ∷ rest
  push_due index (job, some false) rest = rest
  push_due index (job, none) rest = rest

  -- The loop that collects the due jobs, from an index on, where the worker is not shut down in it.
  unfoldable pub collect_due :
      ℕ → Time → List (CronJob Params Time) → List (CronJob Params Time) × List (DueCronJob Params)
  collect_due index now [] = ([], [])
  collect_due index now (job ∷ jobs) =
      let (jobs', rest) = collect_due (suc index) now jobs in
      ((due job now).0 ∷ jobs', push_due index (due job now) rest)

  -- The loop that schedules the due jobs anew.
  unfoldable pub reschedule :
      Time → List (DueCronJob Params) → List (CronJob Params Time) → List (CronJob Params Time)
  reschedule now [] jobs = jobs
  reschedule now (d ∷ ds) jobs =
      reschedule now ds (update_at d.index (λ job. (schedule_next job now).0) jobs)

module _ (p : Platform) (env : ClientEnvironment p) (settings : RrqSettings p.redis.floats.F64)
    (cron : CronEnvironment p.codec.Time) where
  open p use {redis, codec}
  open codec use {Params, Time}

  abbrev pub options_of : DueCronJob Params → Options p env settings
  options_of d = record {
    queue_name = d.queue_name;
    job_id = none;
    unique_key = d.unique_key;
    max_retries = none;
    job_timeout_seconds = none;
    defer_until = none;
    defer_by = none;
    result_ttl_seconds = none;
    trace_context = none;
  }

  -- Whether the job is to be enqueued: an error counts as no lock.
  abbrev pub unlocked : Result ℤ → Bool
  unlocked (ok ttl) = if ltb_ℤ (pos 0) ttl then false else true
  unlocked (err e) = true

  abbrev pub should_enqueue : Option String → Io redis Bool
  should_enqueue none = pure true
  should_enqueue (some key) = do
    ttl ← attempt (get_lock_ttl p env settings key)
    pure (unlocked ttl)

  -- An error of the enqueue is only logged.
  unfoldable pub enqueue_due : DueCronJob Params → String → Time → Io redis Unit
  enqueue_due d new_id now = do
    wanted ← should_enqueue d.unique_key
    if wanted
        then (do
          attempt (enqueue p env settings d.function_name d.params (options_of d) new_id now)
          pure tt)
        else pure tt

  -- The loop over the due jobs: whether it came to its end before a shutdown. The fresh id and the
  -- time of each enqueue are given by the job's index.
  unfoldable pub enqueue_all :
      (ℕ → Bool) → (ℕ → String) → (ℕ → Time) → List (DueCronJob Params) → Io redis Bool
  enqueue_all shutdown fresh clock [] = pure true
  enqueue_all shutdown fresh clock (d ∷ ds) =
      if shutdown d.index
      then pure false
      else (do enqueue_due d (fresh d.index) (clock d.index); enqueue_all shutdown fresh clock ds)

  abbrev pub finished :
      Bool
      → List (CronJob Params Time)
      → List (CronJob Params Time)
      → Option (List (CronJob Params Time))
  finished true jobs jobs' = some jobs'
  finished false jobs jobs' = none

  -- A round: the jobs after it, and `none` where the worker is shut down in the loop over the due
  -- jobs.
  unfoldable pub cron_round :
      (ℕ → Bool)
      → (ℕ → String)
      → (ℕ → Time)
      → Time
      → List (CronJob Params Time)
      → Io redis (Option (List (CronJob Params Time)))
  cron_round shutdown fresh clock now jobs = do
    done ← enqueue_all shutdown fresh clock (collect_due cron 0 now jobs).1
    pure (
        finished done jobs
          (reschedule cron now (collect_due cron 0 now jobs).1 (collect_due cron 0 now jobs).0))
