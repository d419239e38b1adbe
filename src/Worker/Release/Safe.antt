-- ===== src/Worker/Release/Safe.antt =====
-- Releasing and quarantining a claimed job in rrq-rs/orchestrator/src/worker.rs, under any sequence
-- of failing calls.
use rrq.Prelude.{
  ℕ, zero, suc, String, Bool, true, false, Option, none, some, ◌≡◌, refl, is_some, inr, arith,
  eq_refl,
}
use rrq.Keys.{job, queue, active, lock, key_eq, format_queue_key}
use rrq.Redis.{Redis, zadd, del, hset, hdel}
use rrq.Redis.Calls.{Io, Result, ok, err, redis_error, wrongtype_error, invalid, attempt}
use rrq.Redis.Triples.{
  Triple, Keeps, Ends, Triple-pure, Triple-if, Triple-call, Triple-bind, Triple-attempt,
}
use rrq.Job.{Job}
use rrq.Platform.{Platform, RrqSettings}
use rrq.Tracking.{NoLoss, NoLoss-step}
use rrq.Tracking.Rules.{about_rules}
use rrq.Tracking.Safe.{safe_rules}
use rrq.Store.{
  get_job_lock_owner, mark_job_pending, is_job_queued, add_job_to_queue, release_job_lock,
  hset_some, release_job_lock_if_owner, remove_active_job,
}
use rrq.Worker.Outcome.Tracked.{Stored, Stored-safe}
use rrq.Worker.Outcome.Endings.{attempt-keeps, remove_active-Stored, release_if_owner-Stored}
use rrq.Worker.Release.{
  is_queueable, is_other, is_active, lock_owned_by_other, owner_attempts, owner_or, when_ok,
  add_unless, queue_again, requeue_claimed_job_without_definition, requeue_claimed_job_if_needed,
  cleanup_claimed_job_state, force_release, cleanup_if,
}

-- The worker runs the job.
pub record Mine (r : Redis) (id worker_id : String) (db : r.Db) : Type 0 where
  pub no_loss : NoLoss r db
  pub tracked : is_some (r.zscore db (active worker_id) id) ≡ true

module _ (p : Platform) (settings : RrqSettings p.redis.floats.F64) (id worker_id : String) where
  open p use {redis, codec}
  open redis use {F64, Db, hget, get, zscore, hget-write, zscore-write, hget-missing}
  open codec use {Time}

  -- Whether the job was put back: then it is in a queue, or at its end.
  abbrev pub Back : Bool → Db → Type 0
  Back b db = NoLoss redis db × (b ≡ true → Stored redis id db)

  marked-Mine :
      (e : Option String) (db : Db)
      → Mine redis id worker_id db
      → Mine redis id worker_id (
          redis.write (hdel (job id) "worker_id") (
            redis.write (hdel (job id) "start_time") (
              hset_some p
                (job id)
                "last_error"
                e
                (redis.write (hset (job id) "status" "PENDING") db))))
  unfolding key_eq
  marked-Mine none db m = record {
    no_loss =
        NoLoss-step redis id db _ (search about_rules depth 20)
          (λ _. inr (worker_id, simp (zscore-write, m.tracked))) m.no_loss;
    tracked = simp (zscore-write, m.tracked);
  }
  marked-Mine (some e) db m = record {
    no_loss =
        NoLoss-step redis id db _ (search about_rules depth 20)
          (λ _. inr (worker_id, simp (zscore-write, m.tracked))) m.no_loss;
    tracked = simp (zscore-write, m.tracked);
  }

  mark-Mine : (e : Option String) → Keeps (Mine redis id worker_id) (mark_job_pending p id e)
  unfolding mark_job_pending
  mark-Mine e = Triple-call _ (marked-Mine e) (λ db m. m) (marked-Mine e)

  added-Stored :
      (q : String) (score : F64) (db : Db)
      → NoLoss redis db
      → Stored redis id (redis.write (zadd (queue q) id score) db)
  unfolding key_eq
  added-Stored q score db n = record {
    no_loss = search (safe_rules, tt) depth 9;
    settled = λ _. (q, simp (zscore-write, eq_refl));
  }

  queued-Stored :
      (q : String) (db : Db)
      → NoLoss redis db
      → is_some (zscore db (queue q) id) ≡ true
      → Stored redis id db
  queued-Stored q db n h = record { no_loss = n; settled = λ _. (q, h) }

  pub when_ok-Back :
      {A : Type 0} (M : A → Db → Type 0) (E : Db → Type 0) (res : Result A) (f : A → Io redis Bool)
      → ((a : A) → Triple (M a) (f a) Back (NoLoss redis))
      → ((db : Db) → E db → NoLoss redis db)
      → Triple (Ends M E res) (when_ok p settings res f) Back (NoLoss redis)
  when_ok-Back M E (ok a) f t weaker = t a
  when_ok-Back M E (err e) f t weaker = Triple-pure false (λ db n. (weaker db n, λ h. grind arith))

  add_unless-Back :
      (queue_name : String) (now : Time) (there : Bool)
      → Triple
          (λ db. NoLoss redis db × (there ≡ true → Stored redis id db))
          (add_unless p settings queue_name id now there)
          Back
          (NoLoss redis)
  unfolding add_job_to_queue format_queue_key
  add_unless-Back queue_name now true = Triple-pure true (λ db h. (h.0, h.1))
  add_unless-Back queue_name now false =
      Triple-bind (Ends (λ _. Stored redis id) (NoLoss redis))
        (attempt (add_job_to_queue p queue_name id (p.millis now))) _
        (Triple-attempt _ (
          Triple-call _ (λ db h. added-Stored _ _ db h.0) (λ db h. h.0)
            (λ db h. (added-Stored _ _ db h.0).no_loss)))
        (λ added.
          when_ok-Back (λ _. Stored redis id) (NoLoss redis) added _
            (λ _. Triple-pure true (λ db s. (s.no_loss, λ _. s))) (λ db n. n))

  queue_again-Back :
      (queue_name : String) (now : Time)
      → Triple (NoLoss redis) (queue_again p settings queue_name id now) Back (NoLoss redis)
  unfolding queue_again is_job_queued format_queue_key
  queue_again-Back queue_name now =
      Triple-bind
        (Ends (λ there db. NoLoss redis db × (there ≡ true → Stored redis id db)) (NoLoss redis))
        (attempt (is_job_queued p queue_name id)) _
        (Triple-attempt _
          (Triple-call _ (λ db n. (n, queued-Stored _ db n)) (λ db n. n) (λ db n. n)))
        (λ queued.
          when_ok-Back _ (NoLoss redis) queued _ (add_unless-Back queue_name now) (λ db n. n))

  -- A precondition that is more than is needed.
  pub Triple-from :
      {A : Type 0} {P P' E : Db → Type 0} {Q : A → Db → Type 0} (m : Io redis A)
      → ((db : Db) → P db → P' db)
      → Triple P' m Q E
      → Triple P m Q E
  Triple-from m f t = record { at = λ w h. t.at w (f w.db h) }

  pub without-Back :
      (queue_name : String) (e : Option String) (now : Time)
      → Triple
          (Mine redis id worker_id)
          (requeue_claimed_job_without_definition p settings queue_name id e now)
          Back
          (NoLoss redis)
  unfolding requeue_claimed_job_without_definition
  without-Back queue_name e now =
      Triple-bind (Ends (λ _. Mine redis id worker_id) (Mine redis id worker_id))
        (attempt (mark_job_pending p id e)) _ (Triple-attempt _ (mark-Mine e))
        (λ marked.
          when_ok-Back (λ _. Mine redis id worker_id) (Mine redis id worker_id) marked _
            (λ _. Triple-from _ (λ db m. m.no_loss) (queue_again-Back queue_name now))
            (λ db m. m.no_loss))

  pub needed-Back :
      (queue_name : String) (j : Job codec) (e : Option String) (now : Time)
      → is_queueable j.status ≡ true
      → Triple
          (Mine redis id worker_id)
          (requeue_claimed_job_if_needed p settings queue_name id j e now)
          Back
          (NoLoss redis)
  unfolding requeue_claimed_job_if_needed requeue_claimed_job_without_definition
  needed-Back queue_name j e now q =
      rw (q, requeue_claimed_job_if_needed)
        (Triple-if (is_active j.status) _ _ (λ _. without-Back queue_name e now)
          (λ _. Triple-from _ (λ db m. m.no_loss) (queue_again-Back queue_name now)))

  force_release-Stored :
      (res : Result {0} Bool) → Keeps (Stored redis id) (force_release p settings id res)
  unfolding release_job_lock
  force_release-Stored (ok b) = Triple-pure tt (λ db s. s)
  force_release-Stored (err redis_error) = Triple-pure tt (λ db s. s)
  force_release-Stored (err (invalid m)) = Triple-pure tt (λ db s. s)
  force_release-Stored (err wrongtype_error) =
      Triple-bind (λ _. Stored redis id) (attempt (release_job_lock p id)) _
        (attempt-keeps p settings _ (
          Triple-call _ (λ db s. Stored-safe redis id (del (lock id)) db s tt) (λ db s. s)
            (λ db s. Stored-safe redis id (del (lock id)) db s tt)))
        (λ _. Triple-pure tt (λ db s. s))

  cleanup-Stored : Keeps (Stored redis id) (cleanup_claimed_job_state p settings id worker_id)
  unfolding cleanup_claimed_job_state
  cleanup-Stored =
      Triple-bind (λ _. Stored redis id) (attempt (remove_active_job p worker_id id)) _
        (attempt-keeps p settings _ (remove_active-Stored p settings id worker_id))
        (λ _.
          Triple-bind (λ _. Stored redis id) (attempt (release_job_lock_if_owner p id worker_id)) _
            (attempt-keeps p settings _ (release_if_owner-Stored p settings id worker_id))
            force_release-Stored)

  -- A Boolean that tells that the job was put back, and the clean-up.
  pub cleanup_if-NoLoss :
      (b : Bool)
      → Triple (Back b) (cleanup_if p settings id worker_id b) (λ _. NoLoss redis) (NoLoss redis)
  cleanup_if-NoLoss true = record { at = λ w h. ended _ _ (cleanup-Stored.at w (h.1 refl)) }
    where
      ended :
          (res : Result (Unit {0})) (db : Db)
          → Ends (λ _. Stored redis id) (Stored redis id) res db
          → Ends (λ _. NoLoss redis) (NoLoss redis) res db
      ended (ok u) db s = s.no_loss
      ended (err e) db s = s.no_loss
  cleanup_if-NoLoss false = Triple-pure tt (λ db h. h.0)

  -- The worker runs the job, and no other worker has its lock.
  abbrev pub Claimed : Db → Type 0
  Claimed db = Mine redis id worker_id db × (is_other (get db (lock id)) worker_id ≡ false)

  -- What is known once the owner was asked for.
  abbrev pub Asked : Option Bool → Db → Type 0
  Asked other db = Mine redis id worker_id db × ¬ (other ≡ some true)

  not_other :
      (o : Option String)
      → is_other o worker_id ≡ false
      → ¬ (some (is_other o worker_id) ≡ some true)
  not_other o h e = grind arith

  answered :
      (owner : Result (Option String)) (rest : Io redis (Option Bool))
      → Triple Claimed rest Asked (NoLoss redis)
      → Triple
          (Ends (λ o db. Claimed db × (is_other o worker_id ≡ false)) Claimed owner)
          (owner_or p settings worker_id owner rest)
          Asked
          (NoLoss redis)
  answered (ok o) rest t = Triple-pure _ (λ db h. (h.0.0, not_other o h.1))
  answered (err e) rest t = t

  attempts-Asked :
      (n : ℕ) → Triple Claimed (owner_attempts p settings n id worker_id) Asked (NoLoss redis)
  unfolding get_job_lock_owner
  attempts-Asked zero = Triple-pure none (λ db h. (h.0, λ e. grind arith))
  attempts-Asked (suc n) =
      Triple-bind (Ends (λ o db. Claimed db × (is_other o worker_id ≡ false)) Claimed)
        (attempt (get_job_lock_owner p id)) _
        (Triple-attempt _ (Triple-call _ (λ db h. (h, h.1)) (λ db h. h) (λ db h. h)))
        (λ owner. answered owner _ (attempts-Asked n))

  pub asked : Triple Claimed (lock_owned_by_other p settings id worker_id) Asked (NoLoss redis)
  unfolding lock_owned_by_other
  asked = attempts-Asked 2
