-- ===== src/Producer/Scripts/NoLoss.antt =====
-- The producer's scripts and the invariant `NoLoss`.
use rrq.Prelude.{String, Option, none, some, inl, inr, eq_refl, Option-cases}
use rrq.Prelude.Int.{ℤ}
use rrq.Keys.{Key, job, queue, idempotency, rate_limit, debounce, key_eq}
use rrq.Redis.{Redis, del}
use rrq.Tracking.{NoLoss, NoLoss-step}
use rrq.Tracking.Rules.{about_rules}
use rrq.Tracking.Safe.{IsSafe, NoLoss-safe, safe_rules}
use rrq.Producer.Scripts.{
  NewJob, create_job, existing_job, forget_stale, claim_key, enqueue_script, rate_limit_script,
  reschedule, pending_job, debounce_new, debounce_script, idempotency_of,
}

module _ (r : Redis) where
  open r use {F64, Db, write, hget, get, zscore, exists, hget-write, zscore-write}

  pub create_job-NoLoss :
      (q : String) (j : NewJob) (score : F64) (db : Db)
      → NoLoss r db
      → NoLoss r (create_job r (job j.job_id) (queue q) j score db)
  unfolding create_job key_eq
  create_job-NoLoss q j score db n =
      NoLoss-step r j.job_id db _ (search about_rules depth 30)
        (λ _. inl (q, simp (zscore-write, eq_refl))) n

  reschedule-NoLoss :
      (q k id : String) (j : NewJob) (score : F64) (ttl : ℤ) (db : Db)
      → NoLoss r db
      → NoLoss r (reschedule r (queue q) (debounce k) id j score ttl db)
  unfolding reschedule key_eq
  reschedule-NoLoss q k id j score ttl db n = search (safe_rules, inl, tt) depth 30

  ruleset create_rules = (safe_rules, create_job-NoLoss, tt)

  pub rate_limit-NoLoss :
      (q k : String) (j : NewJob) (score : F64) (ttl : ℤ) (db : Db)
      → NoLoss r db
      → NoLoss r (rate_limit_script r (job j.job_id) (queue q) (rate_limit k) j score ttl db).1
  unfolding rate_limit_script
  rate_limit-NoLoss q k j score ttl db n = search create_rules depth 20

  claim_key-NoLoss :
      (q k : String) (j : NewJob) (score : F64) (ttl : ℤ) (db : Db)
      → NoLoss r db
      → NoLoss r (claim_key r (job j.job_id) (queue q) (idempotency k) j score ttl db).1
  unfolding claim_key
  claim_key-NoLoss q k j score ttl db n = elim (Option-cases (get db (idempotency k))) [
    | inl e ↦ rw (e, claim_key) (search create_rules depth 20)
    | inr (winner, e) ↦ rw (e, claim_key) (search create_rules depth 20)
  ]

  forget-NoLoss :
      (k : Key) (o : Option String) (db : Db)
      → IsSafe {Score = F64} (del k)
      → NoLoss r db
      → NoLoss r (forget_stale r k o db)
  forget-NoLoss k none db s n = n
  forget-NoLoss k (some id) db s n = NoLoss-safe r (del k) db n s

  pub enqueue-NoLoss :
      (q : String) (k : Option String) (j : NewJob) (score : F64) (ttl : ℤ) (db : Db)
      → NoLoss r db
      → NoLoss r (enqueue_script r (job j.job_id) (queue q) (idempotency_of k) j score ttl db).1
  unfolding enqueue_script
  enqueue-NoLoss q none j score ttl db n = search create_rules depth 20
  enqueue-NoLoss q (some k) j score ttl db n =
      elim (Option-cases (existing_job r (get db (idempotency k)) db)) [
        | inl e ↦
            rw (e, enqueue_script)
              (claim_key-NoLoss q k j score ttl _
                (forget-NoLoss (idempotency k) (get db (idempotency k)) db tt n))
        | inr (id, e) ↦ rw (e, enqueue_script) n
      ]

  debounce_new-NoLoss :
      (q k : String) (j : NewJob) (score : F64) (ttl : ℤ) (db : Db)
      → NoLoss r db
      → NoLoss r (debounce_new r (queue q) (debounce k) j score ttl db).1
  unfolding debounce_new
  debounce_new-NoLoss q k j score ttl db n = elim (Option-cases (get db (debounce k))) [
    | inl e ↦ rw (e, debounce_new) (search create_rules depth 20)
    | inr (winner, e) ↦ rw (e, debounce_new) (search create_rules depth 20)
  ]

  pub debounce-NoLoss :
      (q k : String) (j : NewJob) (score : F64) (ttl : ℤ) (db : Db)
      → NoLoss r db
      → NoLoss r (debounce_script r (queue q) (debounce k) j score ttl db).1
  unfolding debounce_script
  debounce-NoLoss q k j score ttl db n =
      elim (Option-cases (pending_job r (get db (debounce k)) db)) [
        | inl e ↦
            rw (e, debounce_script)
              (debounce_new-NoLoss q k j score ttl _
                (forget-NoLoss (debounce k) (get db (debounce k)) db tt n))
        | inr (id, e) ↦ rw (e, debounce_script) (reschedule-NoLoss q k id j score ttl db n)
      ]
