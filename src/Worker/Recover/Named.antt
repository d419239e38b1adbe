-- ===== src/Worker/Recover/Named.antt =====
-- The hashes of the jobs name their jobs, whatever the recovery does:
-- rrq-rs/orchestrator/src/worker.rs.
use rrq.Prelude.{
  String, Bool, true, false, Option, none, some, ◌≡◌, ◌==◌, refl, is_some, arith, if◌then◌else◌,
}
use rrq.Prelude.Int.{ℤ, pos, leb_ℤ}
use rrq.Keys.{job, queue, active, lock, key_eq, format_queue_key}
use rrq.Redis.{Redis, Write, hset, hdel, hincrby, del}
use rrq.Redis.Calls.{Io, Error, Result, ok, err, attempt, call, pure, fail, ◌>>=◌}
use rrq.Redis.Triples.{Keeps, Triple-pure, Triple-fail, Triple-if, Triple-call, Triple-bind}
use rrq.Job.{Job}
use rrq.Platform.{Platform, RrqSettings}
use rrq.Scripts.{release_lock_if_owner_lua, requeue_job_lua}
use rrq.Store.{
  or_invalid, get_job_definition, get_job_lock_owner, try_lock_job, is_job_queued, mark_job_pending,
  remove_active_job, release_job_lock_if_owner, atomic_requeue_job,
}
use rrq.Worker.Outcome.Endings.{attempt-keeps}
use rrq.Worker.Release.{is_queueable, is_active}
use rrq.Worker.Routing.{
  OrphanRequeuePostAction, cleanup_only, cleanup_and_count, preserve_active,
  orphan_requeue_post_action,
}
use rrq.Worker.Recover.{
  orphan_owner, clean_up, after_requeue, requeue_result, recover_lost, mark_if_active,
  recover_locked, with_timeout, recover_found, recover_job, lock_timeout,
}

-- No job's hash names another job.
pub record Named (r : Redis) (db : r.Db) : Type 0 where
  pub own : (id v : String) → r.hget db (job id) "id" ≡ some v → v ≡ id

-- A write that touches no hash's id.
abbrev IsNaming : {Score : Type 0} → Write Score → Type 0
IsNaming (hset k f v) = (f == "id") ≡ false
IsNaming (hincrby k f n) = (f == "id") ≡ false
IsNaming w = Unit {0}

module _ (r : Redis) where
  open r use {F64, Db, write, hget, hget-write, exists}

  id-write :
      (w : Write F64) (db : Db)
      → IsNaming w
      → (id v : String) → hget (write w db) (job id) "id" ≡ some v
      → hget db (job id) "id" ≡ some v
  unfolding key_eq
  id-write (hset (job k) f v) db h j x e = grind (arith, hget-write)
  id-write (hdel k f) db h j x e = grind (arith, hget-write)
  id-write (hincrby k f n) db h j x e = grind (arith, hget-write)
  id-write (del k) db h j x e = grind (arith, hget-write)
  id-write _ db h j x e = grind (arith, hget-write)

  Named-write : (w : Write F64) (db : Db) → Named r db → IsNaming w → Named r (write w db)
  Named-write w db n h = record { own = λ id v e. n.own id v (id-write w db h id v e) }

  Named-if :
      {A : Type 0} (b : Bool) (x y : A × Db)
      → Named r x.1
      → Named r y.1
      → Named r (if b then x else y).1
  Named-if true x y f g = f
  Named-if false x y f g = g

  Named-choice : (b : Bool) (x y : Db) → Named r x → Named r y → Named r (if b then x else y)
  Named-choice true x y f g = f
  Named-choice false x y f g = g

  ruleset naming_rules = (Named-write, Named-if, Named-choice, refl, tt)

  pub release_lock-Named :
      (id w : String) (db : Db)
      → Named r db
      → Named r (release_lock_if_owner_lua r (lock id) w db).1
  unfolding release_lock_if_owner_lua
  release_lock-Named id w db n = search naming_rules depth 20

  pub requeue-Named :
      (q w id error owner next : String) (score : F64) (db : Db)
      → Named r db
      → Named r
          (requeue_job_lua r
            (job id)
            (queue q)
            (some (active w))
            (lock id)
            id
            score
            error
            owner
            next
            db).1
  unfolding requeue_job_lua
  requeue-Named q w id error owner next score db n = search naming_rules depth 30

module _ (p : Platform) (settings : RrqSettings p.redis.floats.F64) where
  open p use {redis, codec}
  open redis use {Db}
  open codec use {Time}

  module _ {P : Db → Type 0} where
    pub Keeps-bind :
        {A B : Type 0} (m : Io redis A) (f : A → Io redis B)
        → Keeps {r = redis} P m
        → ((a : A) → Keeps {r = redis} P (f a))
        → Keeps {r = redis} P (m >>= f)
    Keeps-bind m f tm tf = Triple-bind (λ _. P) m f tm tf

    pub Keeps-attempt :
        {A : Type 0} (m : Io redis A) → Keeps {r = redis} P m → Keeps {r = redis} P (attempt m)
    Keeps-attempt m t = attempt-keeps p settings m t

    pub Keeps-pure : {A : Type 0} (a : A) → Keeps {r = redis} P (pure a)
    Keeps-pure a = Triple-pure a (λ db h. h)

    pub Keeps-fail : {A : Type 0} (e : Error) → Keeps {r = redis} P (fail {A = A} e)
    Keeps-fail e = Triple-fail e (λ db h. h)

    pub Keeps-if :
        {A : Type 0} (b : Bool) (m n : Io redis A)
        → Keeps {r = redis} P m
        → Keeps {r = redis} P n
        → Keeps {r = redis} P (if b then m else n)
    Keeps-if b m n f g = Triple-if b m n (λ _. f) (λ _. g)

    pub Keeps-call :
        {A : Type 0} (f : Db → A × Db)
        → ((db : Db) → P db → P (f db).1)
        → Keeps {r = redis} P (call f)
    Keeps-call f h = Triple-call f h (λ db k. k) h

  owner-Named : (id : String) → Keeps (Named redis) (get_job_lock_owner p id)
  unfolding get_job_lock_owner
  owner-Named id = Keeps-call _ (λ db n. n)

  queued-Named : (q id : String) → Keeps (Named redis) (is_job_queued p q id)
  unfolding is_job_queued
  queued-Named q id = Keeps-call _ (λ db n. n)

  valid-Named : {A : Type 0} (read : Option A) → Keeps (Named redis) (or_invalid p read)
  valid-Named none = Keeps-fail _
  valid-Named (some a) = Keeps-pure a

  read-Named : (id : String) (max : ℤ) → Keeps (Named redis) (get_job_definition p id max)
  unfolding get_job_definition
  read-Named id max = Keeps-bind _ _ (Keeps-call _ (λ db n. n)) valid-Named

  mark-Named : (id : String) → Keeps (Named redis) (mark_job_pending p id none)
  unfolding mark_job_pending
  mark-Named id = Keeps-call _ (λ db n. search naming_rules depth 20)

  remove-Named : (w id : String) → Keeps (Named redis) (remove_active_job p w id)
  unfolding remove_active_job
  remove-Named w id = Keeps-call _ (λ db n. search naming_rules depth 20)

  lock-Named : (id w : String) (ms : ℤ) → Keeps (Named redis) (try_lock_job p id w ms)
  unfolding try_lock_job
  lock-Named id w ms = Keeps-call _ (λ db n. search naming_rules depth 20)

  release-Named : (id w : String) → Keeps (Named redis) (release_job_lock_if_owner p id w)
  unfolding release_job_lock_if_owner
  release-Named id w =
      Keeps-bind _ _ (Keeps-call _ (release_lock-Named redis id w)) (λ _. Keeps-pure _)

  atomic-Named :
      (id q : String) (score : redis.floats.F64) (m o w next : String)
      → Keeps (Named redis) (atomic_requeue_job p id q score m o w next)
  unfolding atomic_requeue_job format_queue_key
  atomic-Named id q score m o w next = Keeps-call _ (requeue-Named redis _ w id m o next score)

  clean_up-Named : (w id l : String) → Keeps (Named redis) (clean_up p settings w id l)
  clean_up-Named w id l = Keeps-bind _ _ (Keeps-attempt _ (remove-Named w id)) (λ _.
      Keeps-bind _ _ (Keeps-attempt _ (release-Named l (orphan_owner p settings w)))
        (λ _. Keeps-pure tt))

  after-Named :
      (j : Job codec) (w : String) (a : OrphanRequeuePostAction)
      → Keeps (Named redis) (after_requeue p settings j w a)
  after-Named j w preserve_active =
      Keeps-bind _ _ (Keeps-attempt _ (release-Named j.id (orphan_owner p settings w)))
        (λ _. Keeps-pure false)
  after-Named j w cleanup_only =
      Keeps-bind (clean_up p settings w j.id j.id) _ (clean_up-Named w j.id j.id)
        (λ _. Keeps-pure false)
  after-Named j w cleanup_and_count =
      Keeps-bind (clean_up p settings w j.id j.id) _ (clean_up-Named w j.id j.id)
        (λ _. Keeps-pure true)

  result-Named :
      (j : Job codec) (w : String) (res : Result {0} ℤ)
      → Keeps (Named redis) (requeue_result p settings j w res)
  result-Named j w (ok n) = after-Named j w (orphan_requeue_post_action n)
  result-Named j w (err e) = after-Named j w preserve_active

  lost-Named :
      (j : Job codec) (q w : String) (now : Time)
      → Keeps (Named redis) (recover_lost p settings j q w now)
  unfolding recover_lost
  lost-Named j q w now =
      Keeps-if (is_queueable j.status) _ _
        (Keeps-bind _ _ (Keeps-attempt _ (atomic-Named j.id q _ _ _ w _)) (result-Named j w))
        (Keeps-bind (clean_up p settings w j.id j.id) _ (clean_up-Named w j.id j.id)
          (λ _. Keeps-pure false))

  locked-Named :
      (j : Job codec) (q w id : String) (now : Time)
      → Keeps (Named redis) (recover_locked p settings j q w id now)
  unfolding recover_locked
  locked-Named j q w id now = Keeps-bind _ _ (queued-Named q id) (λ queued.
      Keeps-if queued _ _
        (Keeps-bind (mark_if_active p settings j id) _
          (Keeps-if (is_active j.status) _ _
            (Keeps-bind _ _ (Keeps-attempt _ (mark-Named id)) (λ _. Keeps-pure tt)) (Keeps-pure tt))
          (λ _.
            Keeps-bind (clean_up p settings w id j.id) _ (clean_up-Named w id j.id)
              (λ _. Keeps-pure false)))
        (lost-Named j q w now))

  timed-Named :
      (ms : Option ℤ) (rest : ℤ → Io redis Bool)
      → ((t : ℤ) → Keeps (Named redis) (rest t))
      → Keeps (Named redis) (with_timeout p settings ms rest)
  timed-Named none rest t = Keeps-fail _
  timed-Named (some ms) rest t = Keeps-if (leb_ℤ ms (pos 0)) _ _ (Keeps-pure false) (t ms)

  recover_found-Named :
      (found : Option (Job codec)) (w id : String) (now : Time)
      → Keeps (Named redis) (recover_found p settings found w id now)
  recover_found-Named none w id now =
      Keeps-bind _ _ (Keeps-attempt _ (remove-Named w id)) (λ _. Keeps-pure false)
  recover_found-Named (some j) w id now = timed-Named (lock_timeout p settings j) _ (λ ms.
      Keeps-bind _ _ (lock-Named j.id _ ms)
        (λ locked. Keeps-if locked _ _ (locked-Named j _ w id now) (Keeps-pure false)))

  pub recover_job-Named :
      (w id : String) (now : Time) → Keeps (Named redis) (recover_job p settings w id now)
  unfolding recover_job
  recover_job-Named w id now = Keeps-bind _ _ (owner-Named id) (λ owner.
      Keeps-if (is_some owner) _ _ (Keeps-pure false) (
        Keeps-bind _ _ (read-Named id settings.default_max_retries)
          (λ found. recover_found-Named found w id now)))
