-- ===== src/System.antt =====
-- The steps that Redis takes for any number of processes: the scripts of
-- rrq-rs/orchestrator/src/lua and those of rrq-rs/producer/src/lib.rs with any arguments, the
-- removal of a settled job from a worker's set, and expiries, in any order. The single writes of
-- other methods of `JobStore` are no steps here: what a worker's sequences of them do is in
-- Worker/Release, Worker/Execute and Worker/Recover.
use rrq.Prelude.{ℕ, String, Option, some, List}
use rrq.Prelude.Int.{ℤ}
use rrq.Keys.{Key, job, queue, active, lock, dlq, events, unique_lock_key, rate_limit, debounce}
use rrq.Redis.{Redis, zrem, del}
use rrq.Tracking.{NoLoss}
use rrq.Tracking.Safe.{NoLoss-safe}
use rrq.Scripts.{
  enqueue_lua, lock_and_start_lua, claim_ready_lua, refresh_lock_lua, release_lock_if_owner_lua,
  retry_lua, move_to_dlq_lua, requeue_job_lua,
}
use rrq.Scripts.NoLoss.{
  enqueue-NoLoss, lock_and_start-NoLoss, claim_ready-NoLoss, refresh_lock-NoLoss,
  release_lock-NoLoss, retry-NoLoss, move_to_dlq-NoLoss, requeue-NoLoss,
}
use rrq.Producer.Scripts.{
  NewJob, idempotency_of, enqueue_script, rate_limit_script, debounce_script,
}
use rrq.Producer.Scripts.NoLoss.{rate_limit-NoLoss, debounce-NoLoss}
use rrq.Producer.Scripts.NoLoss
use rrq.Worker.Outcome.Tracked.{Settled, Stored-untracked}

module _ (r : Redis) where
  open r use {F64, Db, write}

  -- The keys that expire: hashes, locks and event streams. Queues and active sets have no TTL.
  abbrev Expires : Key → Type 0
  Expires (queue q) = ⊥
  Expires (active w) = ⊥
  Expires k = Unit {0}

  pub data Step : Db → Db → Type 0 where
    enqueue :
        (id q : String) (fields : List (String × String)) (score : F64) (db : Db)
        → Step db (enqueue_lua r (job id) (queue q) fields score id db).1
    lock_and_start :
        (q w id start : String) (timeout : ℤ) (score : F64) (db : Db)
        → Step db
            (lock_and_start_lua r
              (lock id)
              (queue q)
              (job id)
              (active w)
              w
              timeout
              id
              start
              score
              db).1
    claim_ready :
        (q w start : String) (now : ℤ) (max : ℕ) (d e : ℤ) (score : F64) (db : Db)
        → Step db (claim_ready_lua r (queue q) (active w) w now max d e start score db).1
    refresh_lock :
        (id w : String) (timeout : ℤ) (db : Db)
        → Step db (refresh_lock_lua r (lock id) w timeout db).1
    release_lock :
        (id w : String) (db : Db) → Step db (release_lock_if_owner_lua r (lock id) w db).1
    retry :
        (q id error st : String) (score : F64) (db : Db)
        → Step db (retry_lua r (job id) (queue q) id score error st db).1
    move_to_dlq :
        (id d error time : String) (u : Option String) (ttl : ℤ) (db : Db)
        → Step db
            (move_to_dlq_lua r
              (job id)
              (events id)
              (dlq d)
              (unique_lock_key u)
              id
              error
              time
              ttl
              db).1
    requeue :
        (q w id error owner next : String) (score : F64) (db : Db)
        → Step db
            (requeue_job_lua r
              (job id)
              (queue q)
              (some (active w))
              (lock id)
              id
              score
              error
              owner
              next
              db).1
    produce :
        (q : String) (k : Option String) (j : NewJob) (score : F64) (ttl : ℤ) (db : Db)
        → Step db (enqueue_script r (job j.job_id) (queue q) (idempotency_of k) j score ttl db).1
    produce_limited :
        (q k : String) (j : NewJob) (score : F64) (ttl : ℤ) (db : Db)
        → Step db (rate_limit_script r (job j.job_id) (queue q) (rate_limit k) j score ttl db).1
    produce_debounced :
        (q k : String) (j : NewJob) (score : F64) (ttl : ℤ) (db : Db)
        → Step db (debounce_script r (queue q) (debounce k) j score ttl db).1
    -- A worker takes a settled job out of its set, as `cleanup_running` does.
    untrack : (id w : String) (db : Db) → Settled r id db → Step db (write (zrem (active w) id) db)
    expiry : (k : Key) (db : Db) → Expires k → Step db (write (del k) db)

  pub data Reach : Db → Db → Type 0 where
    here : (db : Db) → Reach db db
    then : (a b c : Db) → Reach a b → Step b c → Reach a c

  expiry-NoLoss : (k : Key) (db : Db) → Expires k → NoLoss r db → NoLoss r (write (del k) db)
  expiry-NoLoss (queue q) db h n = absurd h
  expiry-NoLoss (active w) db h n = absurd h
  expiry-NoLoss k db h n = NoLoss-safe r (del k) db n tt

  Step-NoLoss : (a b : Db) → Step a b → NoLoss r a → NoLoss r b
  Step-NoLoss _ _ (enqueue id q fields score db) n = enqueue-NoLoss r q id fields score db n
  Step-NoLoss _ _ (lock_and_start q w id start t score db) n =
      lock_and_start-NoLoss r q w id start t score db n
  Step-NoLoss _ _ (claim_ready q w start now max d e score db) n =
      claim_ready-NoLoss r q w start now max d e score db n
  Step-NoLoss _ _ (refresh_lock id w t db) n = refresh_lock-NoLoss r id w t db n
  Step-NoLoss _ _ (release_lock id w db) n = release_lock-NoLoss r id w db n
  Step-NoLoss _ _ (retry q id error st score db) n = retry-NoLoss r q id error st score db n
  Step-NoLoss _ _ (move_to_dlq id d error time u ttl db) n =
      move_to_dlq-NoLoss r id d error time u ttl db n
  Step-NoLoss _ _ (requeue q w id error owner next score db) n =
      requeue-NoLoss r q w id error owner next score db n
  Step-NoLoss _ _ (produce q k j score ttl db) n = NoLoss.enqueue-NoLoss r q k j score ttl db n
  Step-NoLoss _ _ (produce_limited q k j score ttl db) n = rate_limit-NoLoss r q k j score ttl db n
  Step-NoLoss _ _ (produce_debounced q k j score ttl db) n = debounce-NoLoss r q k j score ttl db n
  Step-NoLoss _ _ (untrack id w db s) n =
      (Stored-untracked r id w db (record { no_loss = n; settled = s })).no_loss
  Step-NoLoss _ _ (expiry k db h) n = expiry-NoLoss k db h n

  -- From data in which every job that is pending, active or retrying stands in a queue or in a
  -- worker's active set, the steps reach only such data, in whatever order they are taken.
  pub Reach-NoLoss : (a b : Db) → Reach a b → NoLoss r a → NoLoss r b
  Reach-NoLoss _ _ (here db) n = n
  Reach-NoLoss _ _ (then a b c path step) n = Step-NoLoss b c step (Reach-NoLoss a b path n)
