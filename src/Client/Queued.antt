-- ===== src/Client/Queued.antt =====
-- What the client's enqueue leaves in Redis, under any sequence of failing calls:
-- rrq-rs/orchestrator/src/client.rs.
use rrq.Prelude.{
  String, Bool, true, false, Option, none, some, List, ◌≡◌, refl, is_some, inl, inr, arith, eq_refl,
  unwrap_or, Bool-cases,
}
use rrq.Prelude.Int.{ℤ, pos, leb_ℤ, ltb_ℤ}
use rrq.Keys.{job, queue, unique, key_eq, format_queue_key}
use rrq.Redis.{del}
use rrq.Redis.Calls.{World, Io, Result, ok, err, attempt}
use rrq.Redis.Triples.{
  Triple, Keeps, Ends, Triple-pure, Triple-fail, Triple-if, Triple-call, Triple-bind,
  Triple-attempt,
}
use rrq.Job.{Job, build_job_mapping}
use rrq.Platform.{Platform, RrqSettings}
use rrq.Tracking.{NoLoss}
use rrq.Tracking.Safe.{NoLoss-safe, safe_rules}
use rrq.Scripts.{enqueue_lua}
use rrq.Scripts.NoLoss.{enqueue-NoLoss}
use rrq.Store.{is_one, atomic_enqueue_job, acquire_unique_job_lock, release_unique_job_lock}
use rrq.Worker.Outcome.Endings.{attempt-keeps}
use rrq.Client.{
  ClientEnvironment, Options, get_lock_ttl, lock_unique, release_if, enqueued, store_job,
  with_floor, enqueue, timeout_of, queue_of, lock_floor, planned,
}

module _ (p : Platform) (env : ClientEnvironment p)
    (settings : RrqSettings p.redis.floats.F64) where
  open p use {redis, codec}
  open redis use {Db, zscore, zscore-write, exists}
  open codec use {Params, Time}

  -- The job is in the queue that it names.
  abbrev pub Placed : Job codec → Db → Type 0
  Placed j db =
      NoLoss redis db
      × (is_some (zscore db (format_queue_key (unwrap_or j.queue_name "")) j.id) ≡ true)

  ttl-NoLoss : (key : String) → Keeps (NoLoss redis) (get_lock_ttl p env settings key)
  unfolding get_lock_ttl
  ttl-NoLoss key = Triple-call _ (λ db n. n) (λ db n. n) (λ db n. n)

  acquire-NoLoss :
      (key id : String) (ttl : ℤ) → Keeps (NoLoss redis) (acquire_unique_job_lock p key id ttl)
  unfolding acquire_unique_job_lock
  acquire-NoLoss key id ttl =
      Triple-call _ (λ db n. search (safe_rules, tt) depth 9) (λ db n. n)
        (λ db n. search (safe_rules, tt) depth 9)

  release-NoLoss :
      (acquired : Bool) (key : Option String)
      → Keeps (NoLoss redis) (release_if p env settings acquired key)
  unfolding release_unique_job_lock
  release-NoLoss acquired none = Triple-pure tt (λ db n. n)
  release-NoLoss acquired (some key) =
      Triple-if acquired _ _
        (λ _.
          Triple-bind (λ _. NoLoss redis) (attempt (release_unique_job_lock p key)) _
            (attempt-keeps p settings _ (
              Triple-call _ (λ db n. NoLoss-safe redis (del (unique key)) db n tt) (λ db n. n)
                (λ db n. NoLoss-safe redis (del (unique key)) db n tt)))
            (λ _. Triple-pure tt (λ db n. n)))
        (λ _. Triple-pure tt (λ db n. n))

  lock-NoLoss :
      (key : Option String) (id : String) (ttl : ℤ) (run now : Time)
      → Keeps (NoLoss redis) (lock_unique p env settings key id ttl run now)
  unfolding lock_unique
  lock-NoLoss none id ttl run now = Triple-pure _ (λ db n. n)
  lock-NoLoss (some key) id ttl run now =
      Triple-bind (λ _. NoLoss redis) _ _ (ttl-NoLoss key)
        (λ left.
          Triple-if (ltb_ℤ (pos 0) left) _ _ (λ _. Triple-pure _ (λ db n. n))
            (λ _.
              Triple-bind (λ _. NoLoss redis) _ _ (acquire-NoLoss key id ttl)
                (λ acquired.
                  Triple-if acquired _ _ (λ _. Triple-pure _ (λ db n. n))
                    (λ _.
                      Triple-bind (λ _. NoLoss redis) _ _ (ttl-NoLoss key)
                        (λ remaining. Triple-pure _ (λ db n. n))))))

  script-queued :
      (q id : String) (fields : List (String × String)) (score : redis.floats.F64) (db : Db)
      → is_one p (enqueue_lua redis (job id) (queue q) fields score id db).0 ≡ true
      → is_some (zscore (enqueue_lua redis (job id) (queue q) fields score id db).1 (queue q) id)
        ≡ true
  unfolding enqueue_lua key_eq
  script-queued q id fields score db h = elim (Bool-cases (exists db (job id))) [
    | inl e ↦ (let h' = rw (e, enqueue_lua) at h in grind arith)
    | inr e ↦ rw (e, enqueue_lua) (simp (zscore-write, eq_refl))
  ]

  stored :
      (j : Job codec) (q : String) (score : redis.floats.F64)
      → Triple
          (NoLoss redis)
          (atomic_enqueue_job p j q score)
          (λ b db.
            NoLoss redis db × (b ≡ true → is_some (zscore db (format_queue_key q) j.id) ≡ true))
          (NoLoss redis)
  unfolding atomic_enqueue_job format_queue_key
  stored j q score =
      Triple-bind
        (λ n db.
          NoLoss redis db
          × (is_one p n ≡ true → is_some (zscore db (format_queue_key q) j.id) ≡ true))
        _ _
        (Triple-call _
          (λ db n. (
            enqueue-NoLoss redis _ j.id (build_job_mapping codec j) score db n,
            script-queued _ j.id _ score db,
          ))
          (λ db n. n) (λ db n. enqueue-NoLoss redis _ j.id (build_job_mapping codec j) score db n))
        (λ n. Triple-pure _ (λ db h. h))

  enqueued-Placed :
      (j : Job codec) (q : String) (acquired : Bool) (key : Option String) (res : Result Bool)
      → j.queue_name ≡ some q
      → Triple
          (Ends
            (λ b db.
              NoLoss redis db × (b ≡ true → is_some (zscore db (format_queue_key q) j.id) ≡ true))
            (NoLoss redis)
            res)
          (enqueued p env settings j acquired key res)
          Placed
          (NoLoss redis)
  enqueued-Placed j q acquired key (ok true) named =
      Triple-pure j (λ db h. (h.0, rw (named) (h.1 refl)))
  enqueued-Placed j q acquired key (ok false) named = record {
    at = λ w h.
        (Triple-bind (λ _. NoLoss redis) (release_if p env settings acquired key) _
            (release-NoLoss acquired key) (λ _. Triple-fail {Q = Placed} _ (λ db n. n))).at
          w h.0;
  }
  enqueued-Placed j q acquired key (err e) named =
      Triple-bind (λ _. NoLoss redis) (release_if p env settings acquired key) _
        (release-NoLoss acquired key) (λ _. Triple-fail _ (λ db n. n))

  store_job-Placed :
      (j : Job codec) (q : String) (run : Time) (acquired : Bool) (key : Option String)
      → j.queue_name ≡ some q
      → Triple (NoLoss redis) (store_job p env settings j q run acquired key) Placed (NoLoss redis)
  store_job-Placed j q run acquired key named =
      Triple-bind
        (Ends
          (λ b db.
            NoLoss redis db × (b ≡ true → is_some (zscore db (format_queue_key q) j.id) ≡ true))
          (NoLoss redis))
        (attempt (atomic_enqueue_job p j q (p.millis run))) _
        (Triple-attempt _ (stored j q (p.millis run)))
        (λ res. enqueued-Placed j q acquired key res named)

  floor-Placed :
      (floor : Option ℤ) (rest : ℤ → Io redis (Job codec))
      → ((f : ℤ) → Triple (NoLoss redis) (rest f) Placed (NoLoss redis))
      → Triple (NoLoss redis) (with_floor p env settings floor rest) Placed (NoLoss redis)
  floor-Placed none rest t = Triple-fail _ (λ db n. n)
  floor-Placed (some f) rest t =
      Triple-if (leb_ℤ f (pos 0)) _ _ (λ _. Triple-fail _ (λ db n. n)) (λ _. t f)

  enqueue-Triple :
      (f : String) (params : Params) (options : Options p env settings) (id : String) (now : Time)
      → Triple (NoLoss redis) (enqueue p env settings f params options id now) Placed (NoLoss redis)
  unfolding enqueue
  enqueue-Triple f params options id now =
      Triple-if (leb_ℤ (timeout_of p env settings options) (pos 0)) _ _
        (λ _. Triple-fail _ (λ db n. n))
        (λ _. floor-Placed (lock_floor p env settings options) _ (λ floor.
          Triple-bind (λ _. NoLoss redis) _ _
            (lock-NoLoss options.unique_key (unwrap_or options.job_id id)
              (planned p env settings options now floor).1
              (planned p env settings options now floor).0 now)
            (λ locked.
              store_job-Placed _ (queue_of p env settings options) locked.1 locked.0
                options.unique_key refl)))

  -- Whichever calls fail, the client's enqueue puts no job out of reach, and where it returns a job,
  -- the job is in the queue that it names.
  pub enqueue-queued :
      (f : String) (params : Params) (options : Options p env settings) (id : String) (now : Time)
      (w : World redis)
      → NoLoss redis w.db
      → Ends Placed
          (NoLoss redis)
          (enqueue p env settings f params options id now w).0
          (enqueue p env settings f params options id now w).1.db
  enqueue-queued f params options id now w n = (enqueue-Triple f params options id now).at w n
