-- ===== src/Worker/Recover/Whole.antt =====
-- The whole of `recover_orphaned_jobs`, over all the workers and their jobs:
-- rrq-rs/orchestrator/src/worker.rs.
use rrq.Prelude.{ℕ, zero, suc, String, Bool, List, [], ◌∷◌, leb, nat_eq}
use rrq.Redis.Calls.{World, Io, Result, ok, err}
use rrq.Redis.Triples.{Keeps, Ends}
use rrq.Platform.{Platform, RrqSettings}
use rrq.Store.{get_active_job_ids}
use rrq.Tracking.{NoLoss}
use text.Mathlib.Text.{starts_with}
use rrq.Prelude.{◌==◌}
use rrq.Keys.{active_jobs_prefix}
use rrq.Worker.Recover.{
  Scanning, Progress, stopped, limited, going, recover_job, health_ttl, is_alive, recover_jobs,
  recover_worker, go_on, recover_keys, recover_orphaned_jobs,
}
use rrq.Worker.Recover.Safe.{recover_job-NoLoss}
use rrq.Worker.Recover.Named.{
  Named, recover_job-Named, Keeps-bind, Keeps-pure, Keeps-if, Keeps-call,
}

module _ (p : Platform) (settings : RrqSettings p.redis.floats.F64) where
  open p use {redis, codec}
  open redis use {Db}
  open codec use {Time}

  -- No job is out of reach, and the hashes name their jobs.
  record Sound (db : Db) : Type 0 where
    no_loss : NoLoss redis db
    named : Named redis db

  job-Sound : (w id : String) (now : Time) → Keeps Sound (recover_job p settings w id now)
  job-Sound w id now = record {
    at = λ x s.
        both _ _ (recover_job-NoLoss p settings w id now x s.no_loss (s.named.own id))
          ((recover_job-Named p settings w id now).at x s.named);
  }
    where
      both :
          (res : Result Bool) (db : Db)
          → NoLoss redis db
          → Ends (λ _. Named redis) (Named redis) res db
          → Ends (λ _. Sound) Sound res db
      both (ok b) db n h = record { no_loss = n; named = h }
      both (err e) db n h = record { no_loss = n; named = h }

  module _ (s : Scanning redis) (shutdown : ℕ → Bool) (now : ℕ → Time) where
    jobs-Sound :
        (w : String) (ids : List String) (looked recovered : ℕ)
        → Keeps Sound (recover_jobs p settings s shutdown now w ids looked recovered)
    unfolding recover_jobs
    jobs-Sound w [] looked recovered = Keeps-pure p settings _
    jobs-Sound w (id ∷ ids) looked recovered =
        Keeps-if p settings (shutdown looked) _ _ (Keeps-pure p settings _) (
          Keeps-bind p settings _ _ (job-Sound w id (now looked)) (λ counted.
            Keeps-if p settings counted _ _
              (Keeps-if p settings (leb 100 (suc recovered)) _ _ (Keeps-pure p settings _)
                (jobs-Sound w ids (suc looked) (suc recovered)))
              (jobs-Sound w ids (suc looked) recovered)))

    health-Sound : (w : String) → Keeps Sound (health_ttl p settings s shutdown now w)
    unfolding health_ttl
    health-Sound w = Keeps-call p settings _ (λ db h. h)

    ids-Sound : (w : String) → Keeps Sound (get_active_job_ids p w)
    unfolding get_active_job_ids
    ids-Sound w = Keeps-call p settings _ (λ db h. h)

    worker-Sound :
        (w : String) (looked recovered : ℕ)
        → Keeps Sound (recover_worker p settings s shutdown now w looked recovered)
    worker-Sound w looked recovered = Keeps-if p settings (w == "") _ _ (Keeps-pure p settings _) (
        Keeps-bind p settings _ _ (health-Sound w) (λ ttl.
          Keeps-if p settings (is_alive p settings s shutdown now ttl) _ _ (Keeps-pure p settings _)
            (Keeps-bind p settings _ _ (ids-Sound w) (λ ids. jobs-Sound w ids looked recovered))))

    go_on-Sound :
        (x : Progress) (rest : ℕ → ℕ → Io redis Progress)
        → ((l n : ℕ) → Keeps Sound (rest l n))
        → Keeps Sound (go_on p settings s shutdown now x rest)
    go_on-Sound stopped rest t = Keeps-pure p settings _
    go_on-Sound limited rest t = Keeps-pure p settings _
    go_on-Sound (going l n) rest t = t l n

    keys-Sound :
        (keys : List String) (looked recovered : ℕ)
        → Keeps Sound (recover_keys p settings s shutdown now keys looked recovered)
    unfolding recover_keys
    keys-Sound [] looked recovered = Keeps-pure p settings _
    keys-Sound (key ∷ keys) looked recovered =
        Keeps-bind p settings _ _
          (Keeps-if p settings (starts_with key active_jobs_prefix) _ _
            (worker-Sound (s.trim_start_matches key active_jobs_prefix) looked recovered)
            (Keeps-pure p settings _))
          (λ x. go_on-Sound x _ (keys-Sound keys))

    all-Sound :
        (fuel cursor looked recovered : ℕ)
        → Keeps Sound (recover_orphaned_jobs p settings s shutdown now fuel cursor looked recovered)
    unfolding recover_orphaned_jobs
    all-Sound zero cursor looked recovered = Keeps-pure p settings _
    all-Sound (suc fuel) cursor looked recovered =
        Keeps-bind p settings _ _ (Keeps-call p settings _ (λ db h. h)) (λ page.
          Keeps-bind p settings _ _ (keys-Sound page.1 looked recovered) (λ x.
            go_on-Sound x _ (λ l n.
              Keeps-if p settings (nat_eq page.0 0) _ _ (Keeps-pure p settings _)
                (all-Sound fuel page.0 l n))))

    ended : (res : Result Progress) (db : Db) → Ends (λ _. Sound) Sound res db → NoLoss redis db
    ended (ok b) db n = n.no_loss
    ended (err e) db n = n.no_loss

    -- Whichever calls fail, whatever SCAN answers, and wherever the recovery is stopped, it puts no
    -- job out of reach, if no hash names another job than its own.
    pub recover_orphaned_jobs-NoLoss :
        (fuel : ℕ) (w : World redis)
        → NoLoss redis w.db
        → Named redis w.db
        → NoLoss redis (recover_orphaned_jobs p settings s shutdown now fuel 0 0 0 w).1.db
    recover_orphaned_jobs-NoLoss fuel w n names =
        ended _ _ ((all-Sound fuel 0 0 0).at w (record { no_loss = n; named = names }))
