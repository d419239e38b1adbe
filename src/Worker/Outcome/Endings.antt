-- ===== src/Worker/Outcome/Endings.antt =====
-- The ends of a job in rrq-rs/orchestrator/src/worker.rs, under any sequence of failing calls.
use rrq.Prelude.{
  String, Bool, true, false, Option, none, some, ◌≡◌, refl, inl, inr, is_some, eq_refl, arith,
  Bool-cases, ◌∷◌, [],
}
use rrq.Prelude.Int.{ℤ, pos, ltb_ℤ, ◌*ℤ◌}
use rrq.Keys.{job, events, format_queue_key, format_dlq_key, key_eq}
use rrq.Redis.{xadd, expire, persist}
use rrq.Redis.Calls.{Io, Result, ok, err, attempt}
use rrq.Redis.Triples.{
  Triple, Keeps, Ends, Triple-pure, Triple-fail, Triple-if, Triple-call, Triple-bind,
}
use rrq.Job.{Job}
use rrq.Platform.{Platform, RrqSettings}
use rrq.Protocol.{OutcomeStatus}
use rrq.Tracking.{NoLoss}
use rrq.Tracking.Safe.{safe_rules}
use rrq.Scripts.{hset_all}
use rrq.Scripts.NoLoss.{retry-NoLoss, move_to_dlq-NoLoss}
use rrq.Store.{
  or_redis_error, keep_for, completed_event, atomic_move_job_to_dlq, atomic_retry_job,
  save_job_result, release_unique_job_lock, update_job_next_scheduled_run_time, remove_active_job,
  release_job_lock_if_owner,
}
use rrq.Worker.Outcome.{
  move_to_dlq, schedule_retry, process_retry_job, process_failure_job, handle_execution_outcome,
  cleanup_running, Outcome, by_status, release_unique, first_error, forget,
}
use rrq.Worker.Outcome.Tracked.{
  Stored, retry-Stored, move_to_dlq-Stored, Stored-safe, Stored-untracked, release_lock-Stored,
}

module _ (p : Platform) (settings : RrqSettings p.redis.floats.F64) where
  open p use {redis, codec}
  open redis use {F64, Db}
  open codec use {Json, Time}

  -- An action that settles the job or fails without losing one.
  abbrev pub Settles : String → Io redis Unit → Type 0
  Settles id m = Triple (NoLoss redis) m (λ _. Stored redis id) (NoLoss redis)

  pub move_to_dlq-Settles :
      (j : Job codec) (message : String) (now : Time)
      → Settles j.id (move_to_dlq p settings j message now)
  unfolding move_to_dlq atomic_move_job_to_dlq format_dlq_key
  move_to_dlq-Settles j message now =
      Triple-bind (λ n db. NoLoss redis db × (ltb_ℤ n (pos 0) ≡ false → Stored redis j.id db)) _ _
        (Triple-call _
          (λ db n. (
            move_to_dlq-NoLoss redis j.id _ message _ j.job_unique_key _ db n,
            λ h. move_to_dlq-Stored redis j.id _ message _ j.job_unique_key _ db n h,
          ))
          (λ db n. n) (λ db n. move_to_dlq-NoLoss redis j.id _ message _ j.job_unique_key _ db n))
        (λ n.
          Triple-if _ _ _ (λ e. Triple-fail _ (λ db h. h.0)) (λ e. Triple-pure tt (λ db h. h.1 e)))

  update_next-Stored :
      (id : String) (at : Time)
      → Keeps (Stored redis id) (update_job_next_scheduled_run_time p id at)
  unfolding update_job_next_scheduled_run_time
  update_next-Stored id at =
      Triple-call _ (λ db s. Stored-safe redis id _ db s (inl refl)) (λ db s. s)
        (λ db s. Stored-safe redis id _ db s (inl refl))

  -- An attempt of an action that keeps `P` keeps it.
  pub attempt-keeps :
      {A : Type 0} {P E : Db → Type 0} (m : Io redis A)
      → Keeps P m
      → Triple P (attempt m) (λ _. P) E
  attempt-keeps {A = A} {P = P} m t = record { at = λ w h. go (m w).0 (t.at w h) }
    where
      go : (res : Result A) {d : Db} → Ends (λ _. P) P res d → P d
      go (ok a) h = h
      go (err e) h = h

  counted :
      (id : String) (n : Option ℤ)
      → Triple
          (λ db. NoLoss redis db × (is_some n ≡ true → Stored redis id db))
          (or_redis_error p n)
          (λ _. Stored redis id)
          (NoLoss redis)
  counted id none = Triple-fail _ (λ db h. h.0)
  counted id (some k) = Triple-pure k (λ db h. h.1 refl)

  pub schedule_retry-Settles :
      (j : Job codec) (message : String) (delay : F64) (now : Time)
      → Settles j.id (schedule_retry p settings j message delay now)
  unfolding schedule_retry atomic_retry_job format_queue_key
  schedule_retry-Settles j message delay now =
      Triple-bind (λ _. Stored redis j.id) _ _
        (Triple-bind (λ n db. NoLoss redis db × (is_some n ≡ true → Stored redis j.id db)) _ _
          (Triple-call _
            (λ db n. (
              retry-NoLoss redis _ j.id message _ _ db n,
              λ h. retry-Stored redis _ j.id message _ _ db n h,
            ))
            (λ db n. n) (λ db n. retry-NoLoss redis _ j.id message _ _ db n))
          (counted j.id))
        (λ _.
          Triple-bind (λ _. Stored redis j.id) _ _ (attempt-keeps _ (update_next-Stored j.id _))
            (λ _. Triple-pure tt (λ db s. s)))

  pub process_retry-Settles :
      (j : Job codec) (message : String) (after : Option F64) (now : Time)
      → Settles j.id (process_retry_job p settings j message after now)
  unfolding process_retry_job
  process_retry-Settles j message after now =
      search (Triple-if, move_to_dlq-Settles, schedule_retry-Settles)

  pub process_failure-Settles :
      (j : Job codec) (message : String) (now : Time)
      → Settles j.id (process_failure_job p settings j message now)
  unfolding process_failure_job
  process_failure-Settles j message now =
      search (Triple-if, move_to_dlq-Settles, schedule_retry-Settles)

  keep_for-Stored :
      (id : String) (ttl : ℤ) (db : Db)
      → Stored redis id db
      → Stored redis id (keep_for p id ttl db)
  keep_for-Stored id ttl db s = elim (Bool-cases (ltb_ℤ (pos 0) ttl)) [
    | inl b ↦
        rw (b, keep_for)
          (Stored-safe redis id (expire (events id) (ttl *ℤ pos 1000)) _
            (Stored-safe redis id (expire (job id) (ttl *ℤ pos 1000)) _ s tt) tt)
    | inr b ↦ elim (Bool-cases (ltb_ℤ ttl (pos 0))) [
      | inl c ↦ rw (b, c, keep_for) s
      | inr c ↦
          rw (b, c, keep_for)
            (Stored-safe redis id (persist (events id)) _
              (Stored-safe redis id (persist (job id)) _ s tt) tt)
    ]
  ]

  completed-Stored :
      (id result time : String) (db : Db)
      → NoLoss redis db
      → Stored redis id (
          redis.write (xadd (events id) (completed_event p id)) (
            hset_all redis
              (job id)
              (("result", result) ∷ ("completion_time", time) ∷ ("status", "COMPLETED") ∷ [])
              db))
  unfolding key_eq
  completed-Stored id result time db n = record {
    no_loss = search (safe_rules, inl, inr, tt) depth 20;
    settled = λ alive.
        (let done = rw (redis.hget-write, redis.hget-write, eq_refl) at alive in
          grind (arith, redis.hget-write, eq_refl));
  }

  pub save_result-Settles :
      (id : String) (result : Json) (ttl : ℤ) (now : Time)
      → Settles id (save_job_result p id result ttl now)
  unfolding save_job_result
  save_result-Settles id result ttl now =
      let stored = λ (db : Db) (n : NoLoss redis db).
        keep_for-Stored id ttl _
          (completed-Stored id (codec.json_text result) (codec.to_rfc3339 now) db n) in
      Triple-call _ stored (λ db n. n) (λ db n. (stored db n).no_loss)

  pub release_unique-Stored :
      (id : String) (key : Option String) → Keeps (Stored redis id) (release_unique p settings key)
  unfolding release_unique_job_lock
  release_unique-Stored id none = Triple-pure tt (λ db s. s)
  release_unique-Stored id (some key) =
      Triple-call _ (λ db s. Stored-safe redis id _ db s tt) (λ db s. s)
        (λ db s. Stored-safe redis id _ db s tt)

  -- Weaker failures.
  pub Triple-fails :
      {A : Type 0} {P E F : Db → Type 0} {Q : A → Db → Type 0} (m : Io redis A)
      → Triple P m Q E
      → ((db : Db) → E db → F db)
      → Triple P m Q F
  Triple-fails {A = A} {E = E} {F = F} {Q = Q} m t weaker = record {
    at = λ w h. go (m w).0 (m w).1.db (t.at w h);
  }
    where
      go : (res : Result A) (d : Db) → Ends Q E res d → Ends Q F res d
      go (ok a) d h = h
      go (err e) d h = weaker d h

  by_status-Settles :
      (st : OutcomeStatus) (j : Job codec) (outcome : Outcome p settings) (now : Time)
      → Settles j.id (by_status p settings st j outcome now)
  by_status-Settles OutcomeStatus.success j outcome now =
      Triple-bind (λ _. Stored redis j.id) _ _ (save_result-Settles j.id _ _ now)
        (λ _. Triple-fails _ (release_unique-Stored j.id j.job_unique_key) (λ db s. s.no_loss))
  by_status-Settles OutcomeStatus.retry j outcome now = process_retry-Settles j _ _ now
  by_status-Settles OutcomeStatus.timeout j outcome now = move_to_dlq-Settles j _ now
  by_status-Settles OutcomeStatus.error j outcome now =
      search (Triple-if, move_to_dlq-Settles, process_failure-Settles)

  -- Whatever the runner answered and whichever calls fail: when `handle_execution_outcome` returns
  -- without an error, the job has ended or is queued for its retry; when it fails, every job that
  -- still has to run is in a queue or in a worker's active set, as before.
  pub handle_execution_outcome-Settles :
      (j : Job codec) (outcome : Outcome p settings) (now : Time)
      → Settles j.id (handle_execution_outcome p settings j outcome now)
  unfolding handle_execution_outcome
  handle_execution_outcome-Settles j outcome now = by_status-Settles outcome.status j outcome now

  first_error-Stored :
      (id : String) (a : Result (Unit {0})) (b : Result {0} Bool)
      → Keeps (Stored redis id) (first_error p settings a b)
  first_error-Stored id (err e) b = Triple-fail e (λ db s. s)
  first_error-Stored id (ok a) (err e) = Triple-fail e (λ db s. s)
  first_error-Stored id (ok a) (ok b) = Triple-pure tt (λ db s. s)

  pub remove_active-Stored :
      (id worker_id : String) → Keeps (Stored redis id) (remove_active_job p worker_id id)
  unfolding remove_active_job
  remove_active-Stored id worker_id =
      Triple-call _ (λ db s. Stored-untracked redis id worker_id db s) (λ db s. s)
        (λ db s. Stored-untracked redis id worker_id db s)

  pub release_if_owner-Stored :
      (id worker_id : String) → Keeps (Stored redis id) (release_job_lock_if_owner p id worker_id)
  unfolding release_job_lock_if_owner
  release_if_owner-Stored id worker_id =
      Triple-bind (λ _. Stored redis id) _ _
        (Triple-call _ (release_lock-Stored redis id worker_id) (λ db s. s)
          (release_lock-Stored redis id worker_id))
        (λ _. Triple-pure _ (λ db s. s))

  forget-Stored : (id : String) → Keeps (Stored redis id) (forget p settings id)
  forget-Stored id = record { at = λ w h. h }

  -- The clean-up after a settled job.
  pub cleanup-Stored :
      (id worker_id : String) → Keeps (Stored redis id) (cleanup_running p settings id worker_id)
  unfolding cleanup_running
  cleanup-Stored id worker_id =
      Triple-bind (λ _. Stored redis id) (attempt (remove_active_job p worker_id id)) _
        (attempt-keeps _ (remove_active-Stored id worker_id))
        (λ a.
          Triple-bind (λ _. Stored redis id) (attempt (release_job_lock_if_owner p id worker_id)) _
            (attempt-keeps _ (release_if_owner-Stored id worker_id))
            (λ b.
              Triple-bind (λ _. Stored redis id) (forget p settings id) _ (forget-Stored id)
                (λ _. first_error-Stored id a b)))
