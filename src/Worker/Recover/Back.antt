-- ===== src/Worker/Recover/Back.antt =====
-- What the recovery of one job does when every call is served: rrq-rs/orchestrator/src/worker.rs.
use rrq.Prelude.{
  String, Bool, true, false, none, some, [], ◌≡◌, ◌∙◌, refl, is_some, arith, unwrap_or,
}
use rrq.Prelude.Int.{ℤ, pos, leb_ℤ}
use rrq.Keys.{
  job, queue, active, lock, key_eq, format_queue_key, normalize_queue_name, bare_name,
  queue_key_prefix,
}
use rrq.Redis.{set, del}
use rrq.Redis.Calls.{World, Result, ok, err, call}
use rrq.Redis.Triples.{Triple, Keeps, Ends, Triple-pure, Triple-if, Triple-call, Triple-bind}
use rrq.Job.{Job}
use rrq.Platform.{Platform, RrqSettings}
use rrq.Scripts.{requeue_job_lua, release_lock_if_owner_lua}
use rrq.Scripts.NoLoss.{requeue-queued}
use rrq.Store.{
  definition, get_job_definition, get_job_lock_owner, try_lock_job, is_job_queued, mark_job_pending,
  remove_active_job, release_job_lock_if_owner, atomic_requeue_job,
}
use rrq.Worker.Release.{is_queueable, is_active}
use rrq.Worker.Routing.{
  OrphanRequeuePostAction, cleanup_only, cleanup_and_count, preserve_active,
  orphan_requeue_post_action,
}
use rrq.Worker.Recover.{
  recover_job, recover_locked, recover_lost, lock_timeout, orphan_owner, recover_message,
  known_queued, clean_up, after_requeue, mark_if_active,
}
use rrq.Worker.Recover.Named.{Keeps-bind, Keeps-attempt, Keeps-pure, Keeps-if, Keeps-call}

module _ (p : Platform) (settings : RrqSettings p.redis.floats.F64) where
  open p use {redis, codec}
  open redis use {Db, get, zscore, exists, exists-write_other, hget, hget-write, zscore-write}
  open codec use {Time}

  -- A job that another worker, or another recovery, has locked.
  abbrev LockedBy : String → String → Db → Db → Type 0
  LockedBy id owner d db = (db ≡ d) × (get db (lock id) ≡ some owner)

  left :
      (worker_id id owner : String) (now : Time) (d : Db)
      → Triple
          (LockedBy id owner d)
          (recover_job p settings worker_id id now)
          (λ _ db. db ≡ d)
          (λ db. db ≡ d)
  unfolding recover_job get_job_lock_owner
  left worker_id id owner now d =
      Triple-bind (λ o db. (db ≡ d) × (o ≡ some owner)) _ _
        (Triple-call _ (λ db h. h) (λ db h. h.0) (λ db h. h.0))
        (λ o.
          Triple-if (is_some o) _ _ (λ _. Triple-pure false (λ db h. h.0))
            (λ e. record { at = λ x h. (let q = h.1 in grind arith) }))

  unchanged :
      (d : Db) (res : Result Bool) (db : Db) → Ends (λ _ x. x ≡ d) (λ x. x ≡ d) res db → db ≡ d
  unchanged d (ok b) db n = n
  unchanged d (err e) db n = n

  -- Whichever calls fail: the recovery leaves the data as they are if the job's lock has an owner.
  pub recover_job-locked :
      (worker_id id owner : String) (now : Time) (w : World redis)
      → get w.db (lock id) ≡ some owner
      → (recover_job p settings worker_id id now w).1.db ≡ w.db
  recover_job-locked worker_id id owner now w held =
      unchanged w.db _ _ ((left worker_id id owner now w.db).at w (refl, held))

  zscore-release :
      (id owner q m : String) (db : Db)
      → zscore (release_lock_if_owner_lua redis (lock id) owner db).1 (queue q) m
        ≡ zscore db (queue q) m
  unfolding release_lock_if_owner_lua key_eq
  zscore-release id owner q m db = ground (arith, zscore-write (del (lock id)) db (queue q) m)

  -- The job is in the queue.
  abbrev In : String → String → Db → Type 0
  In q id db = is_some (zscore db (format_queue_key q) id) ≡ true

  remove-In : (q w id : String) → Keeps (In q id) (remove_active_job p w id)
  unfolding remove_active_job format_queue_key key_eq
  remove-In q w id = Keeps-call p settings _ (λ db h. simp (zscore-write, h))

  release-In : (q owner id : String) → Keeps (In q id) (release_job_lock_if_owner p id owner)
  unfolding release_job_lock_if_owner format_queue_key
  release-In q owner id =
      Keeps-bind p settings _ _ (Keeps-call p settings _ (λ db h. simp (zscore-release, h)))
        (λ _. Keeps-pure p settings _)

  clean_up-In : (q w id : String) → Keeps (In q id) (clean_up p settings w id id)
  clean_up-In q w id =
      Keeps-bind p settings _ _ (Keeps-attempt p settings _ (remove-In q w id)) (λ _.
        Keeps-bind p settings _ _
          (Keeps-attempt p settings _ (release-In q (orphan_owner p settings w) id))
          (λ _. Keeps-pure p settings tt))

  after-In :
      (j : Job codec) (q w : String) (a : OrphanRequeuePostAction)
      → Keeps (In q j.id) (after_requeue p settings j w a)
  after-In j q w preserve_active =
      Keeps-bind p settings _ _
        (Keeps-attempt p settings _ (release-In q (orphan_owner p settings w) j.id))
        (λ _. Keeps-pure p settings false)
  after-In j q w cleanup_only =
      Keeps-bind p settings (clean_up p settings w j.id j.id) _ (clean_up-In q w j.id)
        (λ _. Keeps-pure p settings false)
  after-In j q w cleanup_and_count =
      Keeps-bind p settings (clean_up p settings w j.id j.id) _ (clean_up-In q w j.id)
        (λ _. Keeps-pure p settings true)

  ended : (P : Db → Type 0) (res : Result Bool) (db : Db) → Ends (λ _. P) P res db → P db
  ended P (ok b) db h = h
  ended P (err e) db h = h

  lost-In :
      (j : Job codec) (q worker_id : String) (now : Time) (w : World redis)
      → w.faults ≡ []
      → exists w.db (job j.id) ≡ true
      → is_queueable j.status ≡ true
      → In q j.id (recover_lost p settings j q worker_id now w).1.db
  unfolding recover_lost atomic_requeue_job call format_queue_key
  lost-In j q worker_id now w quiet there live =
      let time = unwrap_or j.next_scheduled_run_time now in
      let message = recover_message p settings (is_active j.status) in
      let owner = orphan_owner p settings worker_id in
      let bare = bare_name queue_key_prefix q in
      let answer =
        requeue_job_lua redis (job j.id) (queue bare) (some (active worker_id)) (lock j.id) j.id
          (p.millis time) message owner (codec.to_rfc3339 time) w.db in
      let after : World redis = record w { db = answer.1; faults = [] } in
      let rest = after_requeue p settings j worker_id (orphan_requeue_post_action answer.0) in
      let put_back =
        requeue-queued redis bare worker_id j.id message owner (codec.to_rfc3339 time)
          (p.millis time) w.db there in
      rw (quiet, live, recover_lost)
        (ended (In q j.id) (rest after).0 (rest after).1.db
          ((after-In j q worker_id (orphan_requeue_post_action answer.0)).at after put_back))

  marked-In : (j : Job codec) (q : String) → Keeps (In q j.id) (mark_if_active p settings j j.id)
  unfolding mark_job_pending format_queue_key key_eq
  marked-In j q =
      Keeps-if p settings (is_active j.status) _ _
        (Keeps-bind p settings _ _
          (Keeps-attempt p settings _ (Keeps-call p settings _ (λ db h. simp (zscore-write, h))))
          (λ _. Keeps-pure p settings tt))
        (Keeps-pure p settings tt)

  known_queued-In :
      (j : Job codec) (q worker_id : String) (queued : Bool) (now : Time) (w : World redis)
      → w.faults ≡ []
      → exists w.db (job j.id) ≡ true
      → is_queueable j.status ≡ true
      → is_some (zscore w.db (format_queue_key q) j.id) ≡ queued
      → In q j.id (known_queued p settings j q worker_id j.id now queued w).1.db
  known_queued-In j q worker_id true now w quiet there live h = ended (In q j.id) _ _ (
      (Keeps-bind p settings (mark_if_active p settings j j.id) _ (marked-In j q) (λ _.
          Keeps-bind p settings (clean_up p settings worker_id j.id j.id) _
            (clean_up-In q worker_id j.id) (λ _. Keeps-pure p settings false))).at
        w h)
  known_queued-In j q worker_id false now w quiet there live h =
      lost-In j q worker_id now w quiet there live

  -- An orphan is put back: where the calls are served, the job has no lock, its definition can be
  -- read, it is active, pending or retrying and its lock timeout is positive and an i64, recovering
  -- it leaves it in its queue.
  pub recover_job-requeues :
      (j : Job codec) (worker_id : String) (ms : ℤ) (now : Time) (w : World redis)
      → w.faults ≡ []
      → get w.db (lock j.id) ≡ none
      → exists w.db (lock j.id) ≡ false
      → exists w.db (job j.id) ≡ true
      → definition p j.id settings.default_max_retries w.db ≡ some (some j)
      → is_queueable j.status ≡ true
      → lock_timeout p settings j ≡ some ms
      → leb_ℤ ms (pos 0) ≡ false
      → In
          (normalize_queue_name (unwrap_or j.queue_name settings.default_queue_name))
          j.id
          (recover_job p settings worker_id j.id now w).1.db
  unfolding recover_job recover_locked get_job_lock_owner get_job_definition try_lock_job
      is_job_queued call key_eq
  recover_job-requeues j worker_id ms now w quiet free unlocked there read live timed positive =
      let q = normalize_queue_name (unwrap_or j.queue_name settings.default_queue_name) in
      let db = redis.write (set (lock j.id) (orphan_owner p settings worker_id) (some ms)) w.db in
      let after : World redis = record w { db = db; faults = [] } in
      let still : exists db (job j.id) ≡ true =
        exists-write_other (set (lock j.id) (orphan_owner p settings worker_id) (some ms)) w.db
          (job j.id) refl
        ∙ there in
      rw (quiet, free, read, timed, positive, unlocked, recover_job)
        (known_queued-In j q worker_id (is_some (zscore db (format_queue_key q) j.id)) now after
          refl still live refl)
