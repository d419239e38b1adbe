-- ===== src/Producer/Scripts/Once.antt =====
-- What a second call of one of the producer's scripts does with the same key.
use rrq.Prelude.{
  ℕ, String, true, false, Option, none, some, ◌≡◌, ◌==◌, ◌∙◌, refl, inl, inr, arith, eq_refl,
  Bool-cases, Option-cases,
}
use rrq.Prelude.Int.{ℤ, pos, ltb_ℤ}
use rrq.Keys.{Key, job, queue, idempotency, rate_limit, key_eq}
use rrq.Redis.{Redis, hset, zadd}
use rrq.Scripts.{hset_unless_empty, hset_all}
use rrq.Producer.Scripts.{
  NewJob, new_fields, create_job, existing_job, forget_stale, claim_key, enqueue_script,
  rate_limit_script,
}

module _ (r : Redis) where
  open r use {
    F64, Db, write, hget, get, zscore, exists, hget-write, get-write, zscore-write,
    exists-write_other, exists-hset, exists-set, exists-del, get-missing,
  }

  pub exists-hset_unless_empty :
      (k : Key) (f v : String) (db : Db)
      → exists db k ≡ true
      → exists (hset_unless_empty r k f v db) k ≡ true
  exists-hset_unless_empty k f v db h = elim (Bool-cases (v == "")) [
    | inl e ↦ rw (e, hset_unless_empty) h
    | inr e ↦ rw (e, hset_unless_empty) (exists-hset k f v db)
  ]

  exists-new :
      (id : String) (j : NewJob) (db : Db)
      → exists (hset_all r (job id) (new_fields j) db) (job id) ≡ true
  exists-new id j db = exists-hset (job id) "result" j.result _

  pub exists-create_job :
      (id q : String) (j : NewJob) (score : F64) (db : Db)
      → exists (create_job r (job id) (queue q) j score db) (job id) ≡ true
  unfolding create_job key_eq
  exists-create_job id q j score db =
      exists-write_other (zadd (queue q) j.job_id score) _ (job id) refl
      ∙ exists-hset_unless_empty (job id) "correlation_context" j.correlation_context _
          (exists-hset_unless_empty (job id) "trace_context" j.trace_context _ (exists-new id j db))

  pub get-hset_unless_empty :
      (id f v : String) (db : Db) (k : Key) → get (hset_unless_empty r (job id) f v db) k ≡ get db k
  get-hset_unless_empty id f v db k = ground (arith, get-write (hset (job id) f v) db k)

  pub get-create_job :
      (id q : String) (j : NewJob) (score : F64) (db : Db) (k : Key)
      → get (create_job r (job id) (queue q) j score db) k ≡ get db k
  unfolding create_job
  get-create_job id q j score db k = simp (get-write, get-hset_unless_empty)

  pub exists-some : (db : Db) (k : Key) (v : String) → get db k ≡ some v → exists db k ≡ true
  exists-some db k v h = elim (Bool-cases (exists db k)) [
    | inl e ↦ e
    | inr e ↦ (let gone = get-missing db k e in grind arith)
  ]

  -- A call of the enqueue script with a key whose job is there.
  enqueue-existing :
      (q k id : String) (j : NewJob) (score : F64) (ttl : ℤ) (db : Db)
      → get db (idempotency k) ≡ some id
      → exists db (job id) ≡ true
      → enqueue_script r (job j.job_id) (queue q) (some (idempotency k)) j score ttl db
        ≡ ((pos 0, id), db)
  unfolding enqueue_script
  enqueue-existing q k id j score ttl db h e = rw (h, existing_job, e, enqueue_script) refl

  -- The key names a job that is there.
  abbrev Names : String → String → Db → Type 0
  Names k id db = (get db (idempotency k) ≡ some id) × (exists db (job id) ≡ true)

  -- The key is taken or free: no other type of value stands there.
  abbrev pub IsText : Key → Db → Type 0
  IsText k db = get db k ≡ none → exists db k ≡ false

  pub exists-forget_stale :
      (k : Key) (o : Option String) (db : Db)
      → get db k ≡ o
      → IsText k db
      → exists (forget_stale r k o db) k ≡ false
  exists-forget_stale k none db e h = h e
  exists-forget_stale k (some id) db e h = exists-del k db

  claim_key-Names :
      (q k id : String) (n : ℕ) (j : NewJob) (score : F64) (ttl : ℤ) (db : Db)
      → exists db (idempotency k) ≡ false
      → (claim_key r (job j.job_id) (queue q) (idempotency k) j score ttl db).0 ≡ (pos n, id)
      → Names k id (claim_key r (job j.job_id) (queue q) (idempotency k) j score ttl db).1
  unfolding claim_key key_eq
  claim_key-Names q k id n j score ttl db free h = elim (Bool-cases (exists db (job j.job_id))) [
    | inl e ↦ (let h' = rw (e, claim_key) at h in grind arith)
    | inr e ↦
        rw (e, free, claim_key)
          (
            (let h' = rw (e, free, claim_key) at h in
                grind (arith, get-create_job, get-write, eq_refl)),
            (let h' = rw (e, free, claim_key) at h in grind (arith, exists-create_job)),
          )
  ]

  existing_job-some :
      (o : Option String) (old : String) (db : Db)
      → existing_job r o db ≡ some old
      → (o ≡ some old) × (exists db (job old) ≡ true)
  existing_job-some none old db h = grind arith
  existing_job-some (some id) old db h = elim (Bool-cases (exists db (job id))) [
    | inl e ↦ (grind arith, grind arith)
    | inr e ↦ grind arith
  ]

  enqueue-Names :
      (q k id : String) (n : ℕ) (j : NewJob) (score : F64) (ttl : ℤ) (db : Db)
      → IsText (idempotency k) db
      → (enqueue_script r (job j.job_id) (queue q) (some (idempotency k)) j score ttl db).0
        ≡ (pos n, id)
      → Names k id
          (enqueue_script r (job j.job_id) (queue q) (some (idempotency k)) j score ttl db).1
  unfolding enqueue_script
  enqueue-Names q k id n j score ttl db t h =
      elim (Option-cases (existing_job r (get db (idempotency k)) db)) [
        | inl e ↦
            (let h' = rw (e, enqueue_script) at h in
              rw (e, enqueue_script)
                (claim_key-Names q k id n j score ttl _
                  (exists-forget_stale (idempotency k) (get db (idempotency k)) db refl t) h'))
        | inr (old, e) ↦
            (let h' = rw (e, enqueue_script) at h in
              let (named, there) = existing_job-some (get db (idempotency k)) old db e in
              rw (e, enqueue_script) (grind arith, grind arith))
      ]

  -- Once the enqueue script has answered a call with an idempotency key by a job, it answers every
  -- further call with the key, whatever the job and the queue, by that job, and changes nothing. The
  -- key must hold a text, if anything.
  pub enqueue-once :
      (q k id : String) (n : ℕ) (j : NewJob) (score : F64) (ttl : ℤ) (db : Db) (q' : String)
      (j' : NewJob) (score' : F64) (ttl' : ℤ)
      → IsText (idempotency k) db
      → (enqueue_script r (job j.job_id) (queue q) (some (idempotency k)) j score ttl db).0
        ≡ (pos n, id)
      → enqueue_script r
          (job j'.job_id)
          (queue q')
          (some (idempotency k))
          j'
          score'
          ttl'
          (enqueue_script r (job j.job_id) (queue q) (some (idempotency k)) j score ttl db).1
        ≡ (
          (pos 0, id),
          (enqueue_script r (job j.job_id) (queue q) (some (idempotency k)) j score ttl db).1,
        )
  enqueue-once q k id n j score ttl db q' j' score' ttl' t h =
      let (named, there) = enqueue-Names q k id n j score ttl db t h in
      enqueue-existing q' k id j' score' ttl' _ named there

  limited-there :
      (q k id : String) (j : NewJob) (score : F64) (ttl : ℤ) (db : Db)
      → (rate_limit_script r (job j.job_id) (queue q) (rate_limit k) j score ttl db).0 ≡ (pos 1, id)
      → exists
          (rate_limit_script r (job j.job_id) (queue q) (rate_limit k) j score ttl db).1
          (rate_limit k)
        ≡ true
  unfolding rate_limit_script key_eq
  limited-there q k id j score ttl db h =
      exists-some _ (rate_limit k) j.job_id (grind (arith, get-create_job, get-write, eq_refl))

  -- Once the rate limit script has created a job, it answers every further call with the key by
  -- {2, ''} and changes nothing, as long as the key is there.
  pub rate_limit-once :
      (q k : String) (id : String) (j : NewJob) (score : F64) (ttl : ℤ) (db : Db) (q' : String)
      (j' : NewJob) (score' : F64) (ttl' : ℤ)
      → (rate_limit_script r (job j.job_id) (queue q) (rate_limit k) j score ttl db).0 ≡ (pos 1, id)
      → ltb_ℤ (pos 0) ttl' ≡ true
      → rate_limit_script r
          (job j'.job_id)
          (queue q')
          (rate_limit k)
          j'
          score'
          ttl'
          (rate_limit_script r (job j.job_id) (queue q) (rate_limit k) j score ttl db).1
        ≡ (
          (pos 2, ""),
          (rate_limit_script r (job j.job_id) (queue q) (rate_limit k) j score ttl db).1,
        )
  unfolding rate_limit_script key_eq
  rate_limit-once q k id j score ttl db q' j' score' ttl' h positive =
      rw (positive, limited-there q k id j score ttl db h, rate_limit_script) refl
