-- ===== src/Producer/Scripts/Keeps.antt =====
-- The producer's scripts and the hashes of the jobs that are there.
use rrq.Prelude.{
  String, Bool, true, false, Option, none, some, ◌≡◌, ◌==◌, ◌∙◌, refl, inl, inr, arith, eq_iff,
  Bool-cases, Option-cases, if◌then◌else◌,
}
use rrq.Prelude.Int.{ℤ}
use rrq.Keys.{Key, job, queue, idempotency, rate_limit, key_eq}
use rrq.Redis.{Redis, set, del}
use rrq.Scripts.{hset_unless_empty}
use rrq.Producer.Scripts.{
  NewJob, create_job, existing_job, forget_stale, claim_key, enqueue_script, rate_limit_script,
  idempotency_of, ttl_of,
}

module _ (r : Redis) where
  open r use {F64, Db, write, hget, get, exists, hget-write, exists-write_other}

  -- The step leaves the hash of each job that was there as it was.
  pub record KeepsJobs (db db' : Db) : Type 0 where
    pub same : (x f : String) → exists db (job x) ≡ true → hget db' (job x) f ≡ hget db (job x) f

  pub hget-hset_unless_empty :
      (id x g v f : String) (db : Db)
      → (id == x) ≡ false
      → hget (hset_unless_empty r (job id) g v db) (job x) f ≡ hget db (job x) f
  unfolding key_eq
  hget-hset_unless_empty id x g v f db h = grind (arith, hget-write)

  hget-create_job :
      (q x f : String) (j : NewJob) (score : F64) (db : Db)
      → (j.job_id == x) ≡ false
      → hget (create_job r (job j.job_id) (queue q) j score db) (job x) f ≡ hget db (job x) f
  unfolding create_job key_eq
  hget-create_job q x f j score db h = simp (hget-write, hget-hset_unless_empty, h)

  apart :
      (id x : String) (db : Db)
      → exists db (job id) ≡ false
      → exists db (job x) ≡ true
      → (id == x) ≡ false
  apart id x db gone there = elim (Bool-cases (id == x)) [
    | inl same ↦ grind (arith, (eq_iff id x).0 same)
    | inr other ↦ other
  ]

  -- The step touches no job.
  pub record SameJobs (db db' : Db) : Type 0 where
    pub same_there : (x : String) → exists db' (job x) ≡ exists db (job x)
    pub same_hash : (x f : String) → hget db' (job x) f ≡ hget db (job x) f

  SameJobs-refl : (db : Db) → SameJobs db db
  SameJobs-refl db = record { same_there = λ x. refl; same_hash = λ x f. refl }

  -- Keys that a producer claims.
  abbrev IsClaim : Key → Type 0
  IsClaim (idempotency k) = Unit {0}
  IsClaim (rate_limit k) = Unit {0}
  IsClaim k = ⊥

  claim_apart : (k : Key) (x : String) → IsClaim k → key_eq k (job x) ≡ false
  unfolding key_eq
  claim_apart (idempotency k) x h = refl
  claim_apart (rate_limit k) x h = refl
  claim_apart k x h = absurd h

  SameJobs-set :
      (a b : Db) (k : Key) (v : String) (ttl : Option ℤ)
      → SameJobs a b
      → IsClaim k
      → SameJobs a (write (set k v ttl) b)
  SameJobs-set a b k v ttl s h = record {
    same_there =
        λ x. exists-write_other (set k v ttl) b (job x) (claim_apart k x h) ∙ s.same_there x;
    same_hash = λ x f. hget-write (set k v ttl) b (job x) f ∙ s.same_hash x f;
  }

  SameJobs-del : (a b : Db) (k : Key) → SameJobs a b → IsClaim k → SameJobs a (write (del k) b)
  SameJobs-del a b k s h = record {
    same_there = λ x. exists-write_other (del k) b (job x) (claim_apart k x h) ∙ s.same_there x;
    same_hash =
        λ x f. (let apart_k = claim_apart k x h in grind (arith, hget-write, s.same_hash x f));
  }

  KeepsJobs-same : (a b : Db) → SameJobs a b → KeepsJobs a b
  KeepsJobs-same a b s = record { same = λ x f there. s.same_hash x f }

  KeepsJobs-create :
      (a b : Db) (q : String) (j : NewJob) (score : F64)
      → SameJobs a b
      → exists b (job j.job_id) ≡ false
      → KeepsJobs a (create_job r (job j.job_id) (queue q) j score b)
  KeepsJobs-create a b q j score s new = record {
    same = λ x f there.
        hget-create_job q x f j score b (apart j.job_id x b new (s.same_there x ∙ there))
        ∙ s.same_hash x f;
  }

  KeepsJobs-if :
      {A : Type 0} (a : Db) (b : Bool) (x y : A × Db)
      → (b ≡ true → KeepsJobs a x.1)
      → (b ≡ false → KeepsJobs a y.1)
      → KeepsJobs a (if b then x else y).1
  KeepsJobs-if a true x y f g = f refl
  KeepsJobs-if a false x y f g = g refl

  ruleset keep_rules = (
    KeepsJobs-if, KeepsJobs-same, KeepsJobs-create, SameJobs-refl, SameJobs-set, SameJobs-del, tt,
  )

  -- The rate limit script overwrites no job.
  pub rate_limit-KeepsJobs :
      (q k : String) (j : NewJob) (score : F64) (ttl : ℤ) (db : Db)
      → KeepsJobs db (rate_limit_script r (job j.job_id) (queue q) (rate_limit k) j score ttl db).1
  unfolding rate_limit_script
  rate_limit-KeepsJobs q k j score ttl db = search keep_rules depth 20

  claim_key-KeepsJobs :
      (q k : String) (j : NewJob) (score : F64) (ttl : ℤ) (a db : Db)
      → SameJobs a db
      → KeepsJobs a (claim_key r (job j.job_id) (queue q) (idempotency k) j score ttl db).1
  unfolding claim_key
  claim_key-KeepsJobs q k j score ttl a db s = elim (Option-cases (get db (idempotency k))) [
    | inl e ↦
        rw (e, claim_key)
          (KeepsJobs-if a (exists db (job j.job_id)) _ _ (λ _. KeepsJobs-same a db s)
            (λ new.
              KeepsJobs-if a (exists db (idempotency k)) _ _
                (λ _. KeepsJobs-create a db q j score s new) (λ _. claimed new)))
    | inr (winner, e) ↦
        rw (e, claim_key)
          (KeepsJobs-if a (exists db (job j.job_id)) _ _ (λ _. KeepsJobs-same a db s)
            (λ new.
              KeepsJobs-if a (exists db (idempotency k)) _ _ (λ _. KeepsJobs-same a db s)
                (λ _. claimed new)))
  ]
    where
      claimed :
          exists db (job j.job_id) ≡ false
          → KeepsJobs a (
              create_job r
                (job j.job_id)
                (queue q)
                j
                score
                (write (set (idempotency k) j.job_id (ttl_of r ttl)) db))
      claimed new =
          KeepsJobs-create a _ q j score
            (SameJobs-set a db (idempotency k) j.job_id (ttl_of r ttl) s tt)
            (exists-write_other (set (idempotency k) j.job_id (ttl_of r ttl)) db (job j.job_id)
                (claim_apart (idempotency k) j.job_id tt)
              ∙ new)

  forget-SameJobs :
      (k : String) (o : Option String) (db : Db) → SameJobs db (forget_stale r (idempotency k) o db)
  forget-SameJobs k none db = SameJobs-refl db
  forget-SameJobs k (some id) db = search keep_rules depth 9

  -- The enqueue script changes no field of a job that is there, with an idempotency key or without.
  pub enqueue-KeepsJobs :
      (q : String) (k : Option String) (j : NewJob) (score : F64) (ttl : ℤ) (db : Db)
      → KeepsJobs db (enqueue_script r (job j.job_id) (queue q) (idempotency_of k) j score ttl db).1
  unfolding enqueue_script
  enqueue-KeepsJobs q none j score ttl db = search keep_rules depth 20
  enqueue-KeepsJobs q (some k) j score ttl db =
      elim (Option-cases (existing_job r (get db (idempotency k)) db)) [
        | inl e ↦
            rw (e, enqueue_script)
              (claim_key-KeepsJobs q k j score ttl db _
                (forget-SameJobs k (get db (idempotency k)) db))
        | inr (id, e) ↦ rw (e, enqueue_script) (KeepsJobs-same db db (SameJobs-refl db))
      ]
