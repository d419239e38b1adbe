-- ===== src/Scripts/NoLoss.antt =====
-- The scripts of rrq-rs/orchestrator/src/lua and the invariant `NoLoss`.
use rrq.Prelude.{
  ℕ, zero, suc, String, true, Option, none, some, List, [], ◌∷◌, ◌++◌, ◌*◌, ◌≡◌, inl, inr,
  if◌then◌else◌, is_some, arith, eq_refl, Option-cases, Bool-cases, not,
}
use rrq.Prelude.Int.{ℤ}
use rrq.Keys.{job, lock, queue, active, dlq, events, unique_lock_key, key_eq}
use rrq.Redis.{Redis, zrem, hset, zadd, del}
use rrq.Tracking.{OnlyAbout, NoLoss, NoLoss-step}
use rrq.Tracking.Rules.{about_rules}
use rrq.Tracking.Safe.{safe_rules}
use rrq.Scripts.{
  hset_all, release_owned, hset_unless_empty, enqueue_lua, start_claimed, lock_and_start_lua,
  claim_candidate, claim_loop, claim_ready_lua, refresh_lock_lua, release_lock_if_owner_lua,
  retry_lua, demoted, requeue_job_lua, move_to_dlq_lua, next_retries,
}

module _ (r : Redis) where
  open r use {
    F64, Db, write, hget, zscore, exists, hget-write, zscore-write, hget-missing, zrangebyscore,
  }

  start_claimed-NoLoss :
      (q w id start : String) (score : F64) (db : Db)
      → NoLoss r db
      → NoLoss r (start_claimed r (queue q) (job id) (active w) w id start score db)
  unfolding start_claimed key_eq
  start_claimed-NoLoss q w id start score db n =
      NoLoss-step r id db _ (search about_rules depth 20)
        (λ _. inr (w, simp (zscore-write, eq_refl))) n

  -- A queued id with no job behind it is dropped.
  drop_missing-NoLoss :
      (q id : String) (db : Db)
      → NoLoss r db
      → not (exists db (job id)) ≡ true
      → NoLoss r (write (zrem (queue q) id) db)
  unfolding key_eq
  drop_missing-NoLoss q id db n gone =
      NoLoss-step r id db _ (search about_rules depth 20)
        (λ e. grind (arith, hget-write, hget-missing db (job id) "status")) n

  ruleset claim_rules = (safe_rules, drop_missing-NoLoss, start_claimed-NoLoss, tt)

  pub lock_and_start-NoLoss :
      (q w id start : String) (timeout : ℤ) (score : F64) (db : Db)
      → NoLoss r db
      → NoLoss r
          (lock_and_start_lua r
            (lock id)
            (queue q)
            (job id)
            (active w)
            w
            timeout
            id
            start
            score
            db).1
  unfolding lock_and_start_lua
  lock_and_start-NoLoss q w id start timeout score db n = search claim_rules depth 20

  claim_candidate-NoLoss :
      (q w id start : String) (d e : ℤ) (score : F64) (db : Db)
      → NoLoss r db
      → NoLoss r (claim_candidate r (queue q) (active w) w d e start score id db).1
  unfolding claim_candidate
  claim_candidate-NoLoss q w id start d e score db n = search claim_rules depth 20

  claim_loop-NoLoss :
      (q w start : String) (max : ℕ) (d e : ℤ) (score : F64) (ids claimed : List String) (db : Db)
      → NoLoss r db
      → NoLoss r (claim_loop r (queue q) (active w) w max d e start score ids claimed db).1
  unfolding claim_loop
  claim_loop-NoLoss q w start max d e score [] claimed db n = n
  claim_loop-NoLoss q w start max d e score (id ∷ ids) claimed db n =
      let c = claim_candidate r (queue q) (active w) w d e start score id db in
      search (
        safe_rules,
        claim_loop-NoLoss q w start max d e score ids (if c.0 then claimed ++ id ∷ [] else claimed)
            c.1 (claim_candidate-NoLoss q w id start d e score db n),
      )

  pub claim_ready-NoLoss :
      (q w start : String) (now : ℤ) (max : ℕ) (d e : ℤ) (score : F64) (db : Db)
      → NoLoss r db
      → NoLoss r (claim_ready_lua r (queue q) (active w) w now max d e start score db).1
  unfolding claim_ready_lua
  claim_ready-NoLoss q w start now zero d e score db n = n
  claim_ready-NoLoss q w start now (suc max) d e score db n = search (
    safe_rules,
    claim_loop-NoLoss q w start (suc max) d e score (zrangebyscore db (queue q) now (suc max * 4))
        [] db n,
  )

  pub refresh_lock-NoLoss :
      (id w : String) (timeout : ℤ) (db : Db)
      → NoLoss r db
      → NoLoss r (refresh_lock_lua r (lock id) w timeout db).1
  unfolding refresh_lock_lua
  refresh_lock-NoLoss id w timeout db n = search (safe_rules, tt) depth 20

  pub release_lock-NoLoss :
      (id w : String) (db : Db)
      → NoLoss r db
      → NoLoss r (release_lock_if_owner_lua r (lock id) w db).1
  unfolding release_lock_if_owner_lua
  release_lock-NoLoss id w db n = search (safe_rules, tt) depth 20

  pub retry-NoLoss :
      (q id error st : String) (score : F64) (db : Db)
      → NoLoss r db
      → NoLoss r (retry_lua r (job id) (queue q) id score error st db).1
  unfolding retry_lua key_eq
  retry-NoLoss q id error st score db n = elim (Option-cases (next_retries r (job id) db)) [
    | inl e ↦ rw (e, retry_lua) n
    | inr (k, e) ↦
        rw (e, retry_lua)
          (NoLoss-step r id db _ (search about_rules depth 20)
            (λ _. inl (q, simp (zscore-write, eq_refl))) n)
  ]

  pub move_to_dlq-NoLoss :
      (id d error time : String) (u : Option String) (ttl : ℤ) (db : Db)
      → NoLoss r db
      → NoLoss r
          (move_to_dlq_lua r
            (job id)
            (events id)
            (dlq d)
            (unique_lock_key u)
            id
            error
            time
            ttl
            db).1
  unfolding move_to_dlq_lua key_eq
  move_to_dlq-NoLoss id d error time none ttl db n =
      elim (Option-cases (next_retries r (job id) db)) [
        | inl e ↦ rw (e, move_to_dlq_lua) n
        | inr (k, e) ↦ rw (e, move_to_dlq_lua) (search (safe_rules, inl, inr, tt) depth 20)
      ]
  move_to_dlq-NoLoss id d error time (some key) ttl db n =
      elim (Option-cases (next_retries r (job id) db)) [
        | inl e ↦ rw (e, move_to_dlq_lua) n
        | inr (k, e) ↦ rw (e, move_to_dlq_lua) (search (safe_rules, inl, inr, tt) depth 20)
      ]

  hset_all-OnlyAbout :
      (id : String) (fields : List (String × String)) (a db : Db)
      → OnlyAbout r id a db
      → OnlyAbout r id a (hset_all r (job id) fields db)
  hset_all-OnlyAbout id [] a db o = o
  hset_all-OnlyAbout id ((f, v) ∷ rest) a db o =
      hset_all-OnlyAbout id rest a (write (hset (job id) f v) db) (search (about_rules) depth 5)

  enqueued-NoLoss :
      (q id : String) (fields : List (String × String)) (score : F64) (db : Db)
      → NoLoss r db
      → NoLoss r (write (zadd (queue q) id score) (hset_all r (job id) fields db))
  unfolding key_eq
  enqueued-NoLoss q id fields score db n =
      NoLoss-step r id db _ (search (about_rules, hset_all-OnlyAbout) depth 9)
        (λ _. inl (q, simp (zscore-write, eq_refl))) n

  pub enqueue-NoLoss :
      (q id : String) (fields : List (String × String)) (score : F64) (db : Db)
      → NoLoss r db
      → NoLoss r (enqueue_lua r (job id) (queue q) fields score id db).1
  unfolding enqueue_lua
  enqueue-NoLoss q id fields score db n = search (safe_rules, enqueued-NoLoss)

  demoted-OnlyAbout :
      (id error : String) (a db : Db)
      → OnlyAbout r id a db
      → OnlyAbout r id a (demoted r (job id) error db)
  unfolding demoted
  demoted-OnlyAbout id error a db o = search about_rules depth 9

  release_owned-OnlyAbout :
      (id owner : String) (a db : Db)
      → OnlyAbout r id a db
      → OnlyAbout r id a (release_owned r (lock id) owner db)
  release_owned-OnlyAbout id owner a db o = search (about_rules, tt) depth 9

  hset_unless_empty-OnlyAbout :
      (id f v : String) (a db : Db)
      → OnlyAbout r id a db
      → OnlyAbout r id a (hset_unless_empty r (job id) f v db)
  hset_unless_empty-OnlyAbout id f v a db o = search about_rules depth 9

  zscore-release_owned :
      (id owner q m : String) (db : Db)
      → zscore (release_owned r (lock id) owner db) (queue q) m ≡ zscore db (queue q) m
  unfolding key_eq
  zscore-release_owned id owner q m db = ground (arith, zscore-write (del (lock id)) db (queue q) m)

  zscore-hset_unless_empty :
      (id f v q m : String) (db : Db)
      → zscore (hset_unless_empty r (job id) f v db) (queue q) m ≡ zscore db (queue q) m
  unfolding key_eq
  zscore-hset_unless_empty id f v q m db =
      ground (arith, zscore-write (hset (job id) f v) db (queue q) m)

  -- Whatever the job's state, once it exists `requeue_job.lua` leaves it in the target queue.
  pub requeue-queued :
      (q w id error owner next : String) (score : F64) (db : Db)
      → exists db (job id) ≡ true
      → is_some (
          zscore
            (requeue_job_lua r
              (job id)
              (queue q)
              (some (active w))
              (lock id)
              id
              score
              error
              owner
              next
              db).1
            (queue q)
            id)
        ≡ true
  unfolding requeue_job_lua key_eq
  requeue-queued q w id error owner next score db there =
      let seen = demoted r (job id) error db in
      elim (Bool-cases (is_some (zscore seen (queue q) id))) [
        | inl e ↦ simp (there, e, zscore-release_owned, zscore-write)
        | inr e ↦
            simp (there, e, zscore-release_owned, zscore-hset_unless_empty, zscore-write, eq_refl)
      ]

  pub requeue-NoLoss :
      (q w id error owner next : String) (score : F64) (db : Db)
      → NoLoss r db
      → NoLoss r
          (requeue_job_lua r
            (job id)
            (queue q)
            (some (active w))
            (lock id)
            id
            score
            error
            owner
            next
            db).1
  unfolding requeue_job_lua
  requeue-NoLoss q w id error owner next score db n = elim (Bool-cases (exists db (job id))) [
    | inl there ↦
        NoLoss-step r id db _
          (search
            (about_rules, release_owned-OnlyAbout, hset_unless_empty-OnlyAbout, demoted-OnlyAbout)
            depth 20)
          (λ _. inl (q, requeue-queued q w id error owner next score db there)) n
    | inr gone ↦ rw (gone, requeue_job_lua) n
  ]
