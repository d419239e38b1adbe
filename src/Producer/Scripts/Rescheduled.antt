-- ===== src/Producer/Scripts/Rescheduled.antt =====
-- What the rescheduling of a debounced job leaves as it was: `build_debounce_script` of
-- rrq-rs/producer/src/lib.rs.
use rrq.Prelude.{String, false, some, ◌≡◌, ◌==◌, ◌&&◌, if◌then◌else◌, refl, inl, inr, Bool-cases}
use rrq.Prelude.Int.{ℤ, pos, ◌*ℤ◌, ltb_ℤ}
use rrq.Keys.{Key, job, queue, debounce, key_eq}
use rrq.Redis.{Redis, hset, hdel, zadd, expire}
use rrq.Scripts.{hset_unless_empty}
use rrq.Producer.Scripts.{NewJob, reschedule, expire_if, set_or_drop}
use rrq.Producer.Scripts.Keeps.{hget-hset_unless_empty}

module _ (r : Redis) where
  open r use {F64, Db, write, hget, zscore, exists, hget-write, zscore-write, exists-write_other}

  pub hget-expire_if :
      (k' : Key) (ttl : ℤ) (db : Db) (k : Key) (f : String)
      → hget (expire_if r k' ttl db) k f ≡ hget db k f
  hget-expire_if k' ttl db k f = elim (Bool-cases (ltb_ℤ (pos 0) ttl)) [
    | inl e ↦ rw (e, expire_if) (hget-write (expire k' (ttl *ℤ pos 1000)) db k f)
    | inr e ↦ rw (e, expire_if) refl
  ]

  -- Another job than the one that is rescheduled.
  pub hget-reschedule :
      (q k id x f : String) (j : NewJob) (score : F64) (ttl : ℤ) (db : Db)
      → (id == x) ≡ false
      → hget (reschedule r (queue q) (debounce k) id j score ttl db) (job x) f ≡ hget db (job x) f
  unfolding reschedule key_eq
  hget-reschedule q k id x f j score ttl db other =
      elim (Bool-cases (j.correlation_context == "")) [
        | inl e ↦
            rw (e, set_or_drop) (simp (hget-expire_if, hget-write, hget-hset_unless_empty r, other))
        | inr e ↦
            rw (e, set_or_drop) (simp (hget-expire_if, hget-write, hget-hset_unless_empty r, other))
      ]

  -- Neither is there or gone for it.
  module _ (id x : String) (other : (id == x) ≡ false) where
    exists-hset_other :
        (f v : String) (db : Db) → exists (write (hset (job id) f v) db) (job x) ≡ exists db (job x)
    unfolding key_eq
    exists-hset_other f v db = exists-write_other (hset (job id) f v) db (job x) other

    exists-hset_unless_other :
        (f v : String) (db : Db)
        → exists (hset_unless_empty r (job id) f v db) (job x) ≡ exists db (job x)
    exists-hset_unless_other f v db = elim (Bool-cases (v == "")) [
      | inl e ↦ rw (e, hset_unless_empty) refl
      | inr e ↦ rw (e, hset_unless_empty) (exists-hset_other f v db)
    ]

    exists-set_or_drop :
        (f v : String) (db : Db)
        → exists (set_or_drop r (job id) f v db) (job x) ≡ exists db (job x)
    unfolding key_eq
    exists-set_or_drop f v db = elim (Bool-cases (v == "")) [
      | inl e ↦ rw (e, set_or_drop) (exists-write_other (hdel (job id) f) db (job x) other)
      | inr e ↦ rw (e, set_or_drop) (exists-hset_other f v db)
    ]

    exists-expire_if :
        (k : String) (ttl : ℤ) (db : Db)
        → exists (expire_if r (debounce k) ttl db) (job x) ≡ exists db (job x)
    unfolding key_eq
    exists-expire_if k ttl db = elim (Bool-cases (ltb_ℤ (pos 0) ttl)) [
      | inl e ↦
          rw (e, expire_if)
            (exists-write_other (expire (debounce k) (ttl *ℤ pos 1000)) db (job x) refl)
      | inr e ↦ rw (e, expire_if) refl
    ]

    exists-zadd :
        (q m : String) (score : F64) (db : Db)
        → exists (write (zadd (queue q) m score) db) (job x) ≡ exists db (job x)
    unfolding key_eq
    exists-zadd q m score db = exists-write_other (zadd (queue q) m score) db (job x) refl

    pub exists-reschedule :
        (q k : String) (j : NewJob) (score : F64) (ttl : ℤ) (db : Db)
        → exists (reschedule r (queue q) (debounce k) id j score ttl db) (job x) ≡ exists db (job x)
    unfolding reschedule
    exists-reschedule q k j score ttl db = simp (
      exists-expire_if, exists-zadd, exists-set_or_drop, exists-hset_unless_other,
      exists-hset_other,
    )

  zscore-set_or_drop :
      (k' : Key) (f v : String) (db : Db) (k : Key) (m : String)
      → zscore (set_or_drop r k' f v db) k m ≡ zscore db k m
  zscore-set_or_drop k' f v db k m = elim (Bool-cases (v == "")) [
    | inl e ↦ rw (e, set_or_drop) (simp zscore-write)
    | inr e ↦ rw (e, set_or_drop) (simp zscore-write)
  ]

  zscore-hset_unless_empty :
      (k' : Key) (f v : String) (db : Db) (k : Key) (m : String)
      → zscore (hset_unless_empty r k' f v db) k m ≡ zscore db k m
  zscore-hset_unless_empty k' f v db k m = elim (Bool-cases (v == "")) [
    | inl e ↦ rw (e, hset_unless_empty) refl
    | inr e ↦ rw (e, hset_unless_empty) (simp zscore-write)
  ]

  pub zscore-reschedule :
      (q k id y m : String) (j : NewJob) (score : F64) (ttl : ℤ) (db : Db)
      → zscore (reschedule r (queue q) (debounce k) id j score ttl db) (queue y) m
        ≡ (if q == y && id == m then some score else zscore db (queue y) m)
  unfolding reschedule key_eq
  zscore-reschedule q k id y m j score ttl db = elim (Bool-cases (ltb_ℤ (pos 0) ttl)) [
    | inl e ↦ rw (e, expire_if) (simp (zscore-write, zscore-set_or_drop, zscore-hset_unless_empty))
    | inr e ↦ rw (e, expire_if) (simp (zscore-write, zscore-set_or_drop, zscore-hset_unless_empty))
  ]
