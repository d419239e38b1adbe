-- ===== src/Worker/Recover/Safe.antt =====
-- Recovering the job of a dead worker, under any sequence of failing calls:
-- rrq-rs/orchestrator/src/worker.rs.
use rrq.Prelude.{
  String, Bool, true, false, Option, none, some, ◌≡◌, refl, is_some, inl, inr, arith, Bool-cases,
  subst, if◌then◌else◌,
}
use rrq.Prelude.Int.{ℤ, pos, leb_ℤ}
use rrq.Keys.{job, queue, lock, key_eq, format_queue_key}
use rrq.Redis.{set, hset, hdel}
use rrq.Redis.Calls.{World, Io, Result, ok, err, attempt}
use rrq.Redis.Triples.{
  Triple, Keeps, Ends, Triple-pure, Triple-fail, Triple-if, Triple-call, Triple-bind,
  Triple-attempt,
}
use rrq.Job.{Job, JobStatus, as_str}
use rrq.Platform.{Platform, RrqSettings}
use rrq.Tracking.{NoLoss, NoLoss-step, live}
use rrq.Tracking.Rules.{about_rules}
use rrq.Tracking.Safe.{NoLoss-safe}
use rrq.Scripts.NoLoss.{requeue-NoLoss, requeue-queued, release_lock-NoLoss}
use rrq.Store.{
  get_job_lock_owner, try_lock_job, is_job_queued, mark_job_pending, remove_active_job,
  release_job_lock_if_owner, atomic_requeue_job,
}
use rrq.Worker.Outcome.Tracked.{Stored}
use rrq.Worker.Outcome.Endings.{attempt-keeps, remove_active-Stored, release_if_owner-Stored}
use rrq.Worker.Release.{is_queueable, is_active}
use rrq.Worker.Routing.{
  OrphanRequeuePostAction, cleanup_only, cleanup_and_count, preserve_active,
  orphan_requeue_post_action,
}
use rrq.Worker.Recover.Read.{Found, Known, NamesItself, reading}
use rrq.Worker.Recover.{
  orphan_owner, clean_up, after_requeue, requeue_result, recover_lost, mark_if_active,
  recover_locked, with_timeout, recover_found, recover_job, lock_timeout,
}

not_queueable : (st : JobStatus) → is_queueable st ≡ false → live (some (as_str st)) ≡ false
unfolding as_str
not_queueable JobStatus.pending h = grind arith
not_queueable JobStatus.active h = grind arith
not_queueable JobStatus.completed h = refl
not_queueable JobStatus.failed h = refl
not_queueable JobStatus.retrying h = grind arith
not_queueable JobStatus.cancelled h = refl

module _ (p : Platform) (settings : RrqSettings p.redis.floats.F64) where
  open p use {redis, codec}
  open redis use {Db, hget, zscore, exists, hget-write, zscore-write, hget-missing}
  open codec use {Time}

  -- The job is in a queue.
  record Queued (id : String) (db : Db) : Type 0 where
    no_loss : NoLoss redis db
    in_queue : (q : String) × (is_some (zscore db (queue q) id) ≡ true)

  Queued-Stored : (id : String) (db : Db) → Queued id db → Stored redis id db
  Queued-Stored id db h = record { no_loss = h.no_loss; settled = λ _. h.in_queue }

  weaken :
      {A : Type 0} {P P' E : Db → Type 0} {Q : A → Db → Type 0} (m : Io redis A)
      → ((db : Db) → P db → P' db)
      → Triple P' m Q E
      → Triple P m Q E
  weaken m f t = record { at = λ w h. t.at w (f w.db h) }

  marked-Queued :
      (id : String) (db : Db)
      → Queued id db
      → Queued id (
          redis.write (hdel (job id) "worker_id") (
            redis.write
              (hdel (job id) "start_time")
              (redis.write (hset (job id) "status" "PENDING") db)))
  unfolding key_eq
  marked-Queued id db h =
      let (q, e) = h.in_queue in
      record {
        no_loss =
            NoLoss-step redis id db _ (search about_rules depth 20)
              (λ _. inl (q, simp (zscore-write, e))) h.no_loss;
        in_queue = (q, simp (zscore-write, e));
      }

  mark-Safely :
      (j : Job codec)
      → Triple (Queued j.id) (mark_if_active p settings j j.id) (λ _. Queued j.id) (NoLoss redis)
  unfolding mark_job_pending
  mark-Safely j =
      Triple-if (is_active j.status) _ _
        (λ _.
          Triple-bind (λ _. Queued j.id) (attempt (mark_job_pending p j.id none)) _
            (attempt-keeps p settings _
              (Triple-call _ (marked-Queued j.id) (λ db h. h) (marked-Queued j.id)))
            (λ _. Triple-pure tt (λ db h. h)))
        (λ _. Triple-pure tt (λ db h. h))

  clean_up-Stored :
      (worker_id id : String)
      → Triple
          (Stored redis id)
          (clean_up p settings worker_id id id)
          (λ _. Stored redis id)
          (NoLoss redis)
  clean_up-Stored worker_id id =
      Triple-bind (λ _. Stored redis id) (attempt (remove_active_job p worker_id id)) _
        (attempt-keeps p settings _ (remove_active-Stored p settings id worker_id))
        (λ _.
          Triple-bind (λ _. Stored redis id)
            (attempt (release_job_lock_if_owner p id (orphan_owner p settings worker_id))) _
            (attempt-keeps p settings _
              (release_if_owner-Stored p settings id (orphan_owner p settings worker_id)))
            (λ _. Triple-pure tt (λ db s. s)))

  release-NoLoss : (id owner : String) → Keeps (NoLoss redis) (release_job_lock_if_owner p id owner)
  unfolding release_job_lock_if_owner
  release-NoLoss id owner =
      Triple-bind (λ _. NoLoss redis) _ _
        (Triple-call _ (release_lock-NoLoss redis id owner) (λ db n. n)
          (release_lock-NoLoss redis id owner))
        (λ _. Triple-pure _ (λ db n. n))

  -- An action after which the data are without loss, whether it returns or fails.
  abbrev Safely : (Db → Type 0) → Io redis Bool → Type 0
  Safely P m = Triple P m (λ _. NoLoss redis) (NoLoss redis)

  after-Stored :
      (j : Job codec) (worker_id : String) (a : OrphanRequeuePostAction)
      → Safely (Stored redis j.id) (after_requeue p settings j worker_id a)
  after-Stored j worker_id preserve_active =
      Triple-bind (λ _. NoLoss redis)
        (attempt (release_job_lock_if_owner p j.id (orphan_owner p settings worker_id))) _
        (weaken _ (λ db s. s.no_loss)
          (attempt-keeps p settings _ (release-NoLoss j.id (orphan_owner p settings worker_id))))
        (λ _. Triple-pure false (λ db n. n))
  after-Stored j worker_id cleanup_only =
      Triple-bind (λ _. Stored redis j.id) (clean_up p settings worker_id j.id j.id) _
        (clean_up-Stored worker_id j.id) (λ _. Triple-pure false (λ db s. s.no_loss))
  after-Stored j worker_id cleanup_and_count =
      Triple-bind (λ _. Stored redis j.id) (clean_up p settings worker_id j.id j.id) _
        (clean_up-Stored worker_id j.id) (λ _. Triple-pure true (λ db s. s.no_loss))

  result-Safely :
      (j : Job codec) (worker_id : String) (res : Result {0} ℤ)
      → Safely
          (Ends (λ _. Stored redis j.id) (NoLoss redis) res)
          (requeue_result p settings j worker_id res)
  result-Safely j worker_id (ok n) = after-Stored j worker_id (orphan_requeue_post_action n)
  result-Safely j worker_id (err e) =
      Triple-bind (λ _. NoLoss redis)
        (attempt (release_job_lock_if_owner p j.id (orphan_owner p settings worker_id))) _
        (attempt-keeps p settings _ (release-NoLoss j.id (orphan_owner p settings worker_id)))
        (λ _. Triple-pure false (λ db n. n))

  Found-exists : (j : Job codec) (db : Db) → Found p settings j db → exists db (job j.id) ≡ true
  Found-exists j db f = elim (Bool-cases (exists db (job j.id))) [
    | inl e ↦ e
    | inr e ↦
        (let gone = hget-missing db (job j.id) "status" e in
          let there = f.same_status in grind arith)
  ]

  -- The script leaves a job that is there in the target queue, whatever it answers.
  requeued :
      (j : Job codec) (q w : String) (score : _) (error owner next : String)
      → Triple
          (Found p settings j)
          (atomic_requeue_job p j.id q score error owner w next)
          (λ _. Stored redis j.id)
          (NoLoss redis)
  unfolding atomic_requeue_job format_queue_key
  requeued j q w score error owner next =
      Triple-call _
        (λ db f. record {
          no_loss = requeue-NoLoss redis _ w j.id error owner next score db f.no_loss;
          settled = λ _.
              (_, requeue-queued redis _ w j.id error owner next score db (Found-exists j db f));
        })
        (λ db f. f.no_loss)
        (λ db f. requeue-NoLoss redis _ w j.id error owner next score db f.no_loss)

  Found-ended :
      (j : Job codec)
      → is_queueable j.status ≡ false
      → (db : Db) → Found p settings j db
      → Stored redis j.id db
  Found-ended j ended db f = record {
    no_loss = f.no_loss;
    settled = λ alive.
        (let d = not_queueable j.status ended in
          let a : live (some (as_str j.status)) ≡ true =
            subst (λ o. live o ≡ true) f.same_status alive in
          grind arith);
  }

  lost-Safely :
      (j : Job codec) (queue_name worker_id : String) (now : Time)
      → Safely (Found p settings j) (recover_lost p settings j queue_name worker_id now)
  unfolding recover_lost
  lost-Safely j queue_name worker_id now =
      Triple-if (is_queueable j.status) _ _
        (λ _.
          Triple-bind (Ends (λ _. Stored redis j.id) (NoLoss redis)) _ _
            (Triple-attempt _ (requeued j queue_name worker_id _ _ _ _))
            (result-Safely j worker_id))
        (λ ended.
          Triple-bind (λ _. Stored redis j.id) (clean_up p settings worker_id j.id j.id) _
            (weaken _ (Found-ended j ended) (clean_up-Stored worker_id j.id))
            (λ _. Triple-pure false (λ db s. s.no_loss)))

  locked-Safely :
      (j : Job codec) (queue_name worker_id : String) (now : Time)
      → Safely (Found p settings j) (recover_locked p settings j queue_name worker_id j.id now)
  unfolding recover_locked is_job_queued format_queue_key
  locked-Safely j queue_name worker_id now =
      Triple-bind (λ queued db. Found p settings j db × (queued ≡ true → Queued j.id db)) _ _
        (Triple-call _ (λ db f. (f, λ e. record { no_loss = f.no_loss; in_queue = (_, e) }))
          (λ db f. f.no_loss) (λ db f. f.no_loss))
        (λ queued.
          Triple-if queued _ _
            (λ e.
              weaken _ (λ db h. h.1 e)
                (Triple-bind (λ _. Queued j.id) (mark_if_active p settings j j.id) _ (mark-Safely j)
                  (λ _.
                    Triple-bind (λ _. Stored redis j.id) (clean_up p settings worker_id j.id j.id) _
                      (weaken _ (Queued-Stored j.id) (clean_up-Stored worker_id j.id))
                      (λ _. Triple-pure false (λ db s. s.no_loss)))))
            (λ e. weaken _ (λ db h. h.0) (lost-Safely j queue_name worker_id now)))

  abbrev locked_with : Job codec → String → ℤ → Db → Bool × Db
  locked_with j owner ms db =
      if exists db (lock j.id)
      then (false, db)
      else (true, redis.write (set (lock j.id) owner (some ms)) db)

  lock-Found :
      (j : Job codec) (owner : String) (ms : ℤ) (db : Db)
      → Found p settings j db
      → Found p settings j (locked_with j owner ms db).1
  unfolding key_eq
  lock-Found j owner ms db f = elim (Bool-cases (exists db (lock j.id))) [
    | inl e ↦ rw (e) f
    | inr e ↦ rw (e) (record {
      no_loss = NoLoss-safe redis (set (lock j.id) owner (some ms)) db f.no_loss tt;
      same_status = simp (hget-write, f.same_status);
    })
  ]

  locking :
      (j : Job codec) (owner : String) (ms : ℤ)
      → Triple
          (Found p settings j)
          (try_lock_job p j.id owner ms)
          (λ _. Found p settings j)
          (NoLoss redis)
  unfolding try_lock_job
  locking j owner ms =
      Triple-call _ (lock-Found j owner ms) (λ db f. f.no_loss)
        (λ db f. (lock-Found j owner ms db f).no_loss)

  timed-Safely :
      (P : Db → Type 0) (ms : Option ℤ) (rest : ℤ → Io redis Bool)
      → ((db : Db) → P db → NoLoss redis db)
      → ((t : ℤ) → Safely P (rest t))
      → Safely P (with_timeout p settings ms rest)
  timed-Safely P none rest n t = Triple-fail _ n
  timed-Safely P (some ms) rest n t =
      Triple-if (leb_ℤ ms (pos 0)) _ _ (λ _. Triple-pure false n) (λ _. t ms)

  recover_found-Safely :
      (j : Job codec) (worker_id : String) (now : Time)
      → Safely (Found p settings j) (recover_found p settings (some j) worker_id j.id now)
  recover_found-Safely j worker_id now =
      timed-Safely (Found p settings j) (lock_timeout p settings j) _ (λ db f. f.no_loss)
        (λ ms.
          Triple-bind (λ _. Found p settings j) _ _
            (locking j (orphan_owner p settings worker_id) ms)
            (λ locked.
              Triple-if locked _ _ (λ _. locked-Safely j _ worker_id now)
                (λ _. Triple-pure false (λ db f. f.no_loss))))

  read-Safely :
      (id worker_id : String) (now : Time) (found : Option (Job codec))
      → Safely (Known p settings id found) (recover_found p settings found worker_id id now)
  read-Safely id worker_id now none =
      Triple-bind (λ _. Stored redis id) (attempt (remove_active_job p worker_id id)) _
        (weaken _ gone-Stored
          (attempt-keeps p settings _ (remove_active-Stored p settings id worker_id)))
        (λ _. Triple-pure false (λ db s. s.no_loss))
    where
      gone-Stored : (db : Db) → NoLoss redis db × (exists db (job id) ≡ false) → Stored redis id db
      gone-Stored db (n, gone) = record {
        no_loss = n;
        settled = λ alive. (let e = hget-missing db (job id) "status" gone in grind arith);
      }
  read-Safely id worker_id now (some j) = record {
    at = λ w (same, f).
        (subst
          (λ x.
            Ends (λ _. NoLoss redis) (NoLoss redis)
              (recover_found p settings (some j) worker_id x now w).0
              (recover_found p settings (some j) worker_id x now w).1.db)
          same ((recover_found-Safely j worker_id now).at w f));
  }

  recover_job-Safely :
      (worker_id id : String) (now : Time)
      → Safely
          (λ db. NoLoss redis db × NamesItself p settings id db)
          (recover_job p settings worker_id id now)
  unfolding recover_job get_job_lock_owner
  recover_job-Safely worker_id id now =
      Triple-bind (λ _ db. NoLoss redis db × NamesItself p settings id db) _ _
        (Triple-call _ (λ db h. h) (λ db h. h.0) (λ db h. h.0))
        (λ owner.
          Triple-if (is_some owner) _ _ (λ _. Triple-pure false (λ db h. h.0))
            (λ _.
              Triple-bind (Known p settings id) _ _ (reading p settings id)
                (read-Safely id worker_id now)))

  ended :
      (res : Result Bool) (db : Db)
      → Ends (λ _. NoLoss redis) (NoLoss redis) res db
      → NoLoss redis db
  ended (ok b) db n = n
  ended (err e) db n = n

  -- Whichever calls fail: recovering a job from the set of a worker, dead or alive, puts no job out
  -- of reach, if the job's hash, where it is there, names the job.
  pub recover_job-NoLoss :
      (worker_id id : String) (now : Time) (w : World redis)
      → NoLoss redis w.db
      → NamesItself p settings id w.db
      → NoLoss redis (recover_job p settings worker_id id now w).1.db
  recover_job-NoLoss worker_id id now w n names =
      ended _ _ ((recover_job-Safely worker_id id now).at w (n, names))
