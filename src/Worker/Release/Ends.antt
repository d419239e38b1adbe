-- ===== src/Worker/Release/Ends.antt =====
-- What becomes of a claimed job that rrq-rs/orchestrator/src/worker.rs releases or quarantines.
use rrq.Prelude.{String, Bool, true, false, Option, none, some, ◌≡◌, refl, is_some}
use rrq.Keys.{active, lock}
use rrq.Redis.Calls.{World, Result, ok, err}
use rrq.Redis.Triples.{Triple, Ends, Triple-bind}
use rrq.Job.{Job}
use rrq.Platform.{Platform, RrqSettings}
use rrq.Tracking.{NoLoss}
use rrq.Worker.Release.{
  is_queueable, is_other, is_worker, requeue_own, release_known, release_claimed_job,
}
use rrq.Worker.Release.Safe.{
  Mine, Claimed, Asked, Back, asked, cleanup_if-NoLoss, needed-Back, Triple-from,
}

module _ (p : Platform) (settings : RrqSettings p.redis.floats.F64) (id worker_id : String) where
  open p use {redis, codec}
  open redis use {F64, Db, hget, get, zscore, exists, hget-write, zscore-write, hget-missing}
  open codec use {Time}

  own-Back :
      (queue_name : String) (j : Job codec) (e : Option String) (now : Time)
      → is_queueable j.status ≡ true
      → is_worker j.worker_id worker_id ≡ true
      → Triple
          (Mine redis id worker_id)
          (requeue_own p settings queue_name id (some j) e worker_id now)
          (Back p settings id worker_id)
          (NoLoss redis)
  own-Back queue_name j e now q w =
      rw (w, requeue_own) (needed-Back p settings id worker_id queue_name j e now q)

  known-NoLoss :
      (other : Option Bool) (queue_name : String) (j : Job codec) (e : Option String) (now : Time)
      → is_queueable j.status ≡ true
      → is_worker j.worker_id worker_id ≡ true
      → Triple
          (Asked p settings id worker_id other)
          (release_known p settings other queue_name id (some j) e worker_id now)
          (λ _. NoLoss redis)
          (NoLoss redis)
  known-NoLoss (some true) queue_name j e now q w = record { at = λ x h. absurd (h.1 refl) }
  known-NoLoss (some false) queue_name j e now q w =
      Triple-bind (Back p settings id worker_id) _ _
        (Triple-from p settings id worker_id _ (λ db h. h.0) (own-Back queue_name j e now q w))
        (cleanup_if-NoLoss p settings id worker_id)
  known-NoLoss none queue_name j e now q w =
      Triple-bind (Back p settings id worker_id) _ _
        (Triple-from p settings id worker_id _ (λ db h. h.0) (own-Back queue_name j e now q w))
        (cleanup_if-NoLoss p settings id worker_id)

  release-Triple :
      (queue_name : String) (j : Job codec) (e : Option String) (now : Time)
      → is_queueable j.status ≡ true
      → is_worker j.worker_id worker_id ≡ true
      → Triple
          (Claimed p settings id worker_id)
          (release_claimed_job p settings queue_name id (some j) e worker_id now)
          (λ _. NoLoss redis)
          (NoLoss redis)
  unfolding release_claimed_job
  release-Triple queue_name j e now q w =
      Triple-bind (Asked p settings id worker_id) _ _ (asked p settings id worker_id)
        (λ other. known-NoLoss other queue_name j e now q w)

  pub ended :
      (res : Result (Unit {0})) (db : Db)
      → Ends (λ _. NoLoss redis) (NoLoss redis) res db
      → NoLoss redis db
  ended (ok u) db n = n
  ended (err e) db n = n

  -- Whichever calls fail: releasing a job that the worker runs, whose lock no other worker holds,
  -- and whose definition names the worker and is active, pending or retrying, puts no job out of
  -- reach.
  pub release_claimed_job-NoLoss :
      (queue_name : String) (j : Job codec) (e : Option String) (now : Time) (w : World redis)
      → is_queueable j.status ≡ true
      → is_worker j.worker_id worker_id ≡ true
      → NoLoss redis w.db
      → is_some (zscore w.db (active worker_id) id) ≡ true
      → is_other (get w.db (lock id)) worker_id ≡ false
      → NoLoss redis (release_claimed_job p settings queue_name id (some j) e worker_id now w).1.db
  release_claimed_job-NoLoss queue_name j e now w q own n tracked mine = ended _ _ (
      (release-Triple queue_name j e now q own).at w
        (record { no_loss = n; tracked = tracked }, mine))
