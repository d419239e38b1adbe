-- ===== src/Worker/Outcome/Tracked.antt =====
-- What becomes of a job whose outcome the worker has stored, whichever calls of Redis fail.
use rrq.Prelude.{
  String, true, false, Option, none, some, ◌≡◌, inl, inr, is_some, arith, eq_refl, Option-cases,
  Bool-cases,
}
use rrq.Prelude.Int.{ℤ, pos, ltb_ℤ}
use rrq.Keys.{job, queue, active, lock, events, dlq, unique_lock_key, key_eq}
use rrq.Redis.{Redis, Write, zrem, del}
use rrq.Tracking.{NoLoss, NoLoss-step, live, status}
use rrq.Tracking.Rules.{about_rules}
use rrq.Tracking.Safe.{status_safe, queues_safe, NoLoss-safe, IsSafe}
use rrq.Scripts.{retry_lua, move_to_dlq_lua, next_retries, release_lock_if_owner_lua, is_owner}
use rrq.Scripts.NoLoss.{retry-NoLoss, move_to_dlq-NoLoss}

-- The job is at its end, or a queue holds it: no worker's set has to.
abbrev pub Settled : (r : Redis) → String → r.Db → Type 0
Settled r id db =
    live (status r db id) ≡ true → (q : String) × (is_some (r.zscore db (queue q) id) ≡ true)

-- The invariant, and the job is settled.
pub record Stored (r : Redis) (id : String) (db : r.Db) : Type 0 where
  pub no_loss : NoLoss r db
  pub settled : Settled r id db

module _ (r : Redis) where
  open r use {F64, Db, write, zscore, hget-write, zscore-write, hget}

  pub retry-Stored :
      (q id error st : String) (score : F64) (db : Db)
      → NoLoss r db
      → is_some (retry_lua r (job id) (queue q) id score error st db).0 ≡ true
      → Stored r id (retry_lua r (job id) (queue q) id score error st db).1
  unfolding retry_lua key_eq
  retry-Stored q id error st score db n h = record {
    no_loss = retry-NoLoss r q id error st score db n;
    settled = elim (Option-cases (next_retries r (job id) db)) [
      | inl e ↦ (let h' = rw (e, retry_lua) at h in grind arith)
      | inr (k, e) ↦ rw (e, retry_lua) (λ _. (q, simp (zscore-write, eq_refl)))
    ];
  }

  failed-settled :
      (id d error time : String) (u : Option String) (ttl : ℤ) (db : Db)
      → ltb_ℤ
          (move_to_dlq_lua r
            (job id)
            (events id)
            (dlq d)
            (unique_lock_key u)
            id
            error
            time
            ttl
            db).0
          (pos 0)
        ≡ false
      → live (
          status r
            (move_to_dlq_lua r
              (job id)
              (events id)
              (dlq d)
              (unique_lock_key u)
              id
              error
              time
              ttl
              db).1
            id)
        ≡ false
  unfolding move_to_dlq_lua key_eq
  failed-settled id d error time none ttl db h = elim (Option-cases (next_retries r (job id) db)) [
    | inl e ↦ (let h' = rw (e, move_to_dlq_lua) at h in grind arith)
    | inr (k, e) ↦
        rw (e, move_to_dlq_lua)
          (elim (Bool-cases (ltb_ℤ (pos 0) ttl)) [
            | inl b ↦ simp (b, hget-write, eq_refl)
            | inr b ↦ simp (b, hget-write, eq_refl)
          ])
  ]
  failed-settled id d error time (some key) ttl db h =
      elim (Option-cases (next_retries r (job id) db)) [
        | inl e ↦ (let h' = rw (e, move_to_dlq_lua) at h in grind arith)
        | inr (k, e) ↦
            rw (e, move_to_dlq_lua)
              (elim (Bool-cases (ltb_ℤ (pos 0) ttl)) [
                | inl b ↦ simp (b, hget-write, eq_refl)
                | inr b ↦ simp (b, hget-write, eq_refl)
              ])
      ]

  pub move_to_dlq-Stored :
      (id d error time : String) (u : Option String) (ttl : ℤ) (db : Db)
      → NoLoss r db
      → ltb_ℤ
          (move_to_dlq_lua r
            (job id)
            (events id)
            (dlq d)
            (unique_lock_key u)
            id
            error
            time
            ttl
            db).0
          (pos 0)
        ≡ false
      → Stored r id
          (move_to_dlq_lua r
            (job id)
            (events id)
            (dlq d)
            (unique_lock_key u)
            id
            error
            time
            ttl
            db).1
  move_to_dlq-Stored id d error time u ttl db n h = record {
    no_loss = move_to_dlq-NoLoss r id d error time u ttl db n;
    settled = λ alive. (let f = failed-settled id d error time u ttl db h in cc);
  }

  pub Stored-safe :
      (id : String) (w : Write F64) (db : Db) → Stored r id db → IsSafe w → Stored r id (write w db)
  Stored-safe id w db s h = record {
    no_loss = NoLoss-safe r w db s.no_loss h;
    settled = λ alive.
        (let (q, e) = s.settled (status_safe r w db h id alive) in
          (q, queues_safe r w db h id q e));
  }

  -- A settled job needs no worker.
  pub Stored-untracked :
      (id a : String) (db : Db) → Stored r id db → Stored r id (write (zrem (active a) id) db)
  unfolding key_eq
  Stored-untracked id a db s = record {
    no_loss =
        NoLoss-step r id db _ (search about_rules depth 9)
          (λ alive.
            (let (q, e) = s.settled (grind (arith, hget-write)) in inl (q, simp (zscore-write, e))))
          s.no_loss;
    settled = λ alive.
        (let (q, e) = s.settled (grind (arith, hget-write)) in (q, simp (zscore-write, e)));
  }

  pub release_lock-Stored :
      (id w : String) (db : Db)
      → Stored r id db
      → Stored r id (release_lock_if_owner_lua r (lock id) w db).1
  unfolding release_lock_if_owner_lua
  release_lock-Stored id w db s = elim (Bool-cases (is_owner r (r.get db (lock id)) w)) [
    | inl e ↦ rw (e, release_lock_if_owner_lua) (Stored-safe id (del (lock id)) db s tt)
    | inr e ↦ rw (e, release_lock_if_owner_lua) s
  ]
