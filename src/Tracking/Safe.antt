-- ===== src/Tracking/Safe.antt =====
-- Writes that put no job out of reach, whatever the data: one step of the invariant `NoLoss`.
use rrq.Prelude.{
  String, Bool, true, false, some, ◌≡◌, ◌==◌, ◌⊎◌, inl, inr, refl, if◌then◌else◌, is_some, arith,
}
use rrq.Keys.{job, queue, active, key_eq}
use rrq.Redis.{Redis, Write, hset, hdel, hincrby, del, zrem}
use rrq.Tracking.{NoLoss, Held, status, live}

-- A hash write leaves the status alone or ends the job, a deleted key holds no places, and no
-- member leaves a set.
abbrev pub IsSafe : {Score : Type 0} → Write Score → Type 0
IsSafe (hset (job j) f v) = ((f == "status") ≡ false) ⊎ (live (some v) ≡ false)
IsSafe (hset k f v) = Unit {0}
IsSafe (hincrby k f n) = (f == "status") ≡ false
IsSafe (del (queue q)) = ⊥
IsSafe (del (active w)) = ⊥
IsSafe (zrem k m) = ⊥
IsSafe w = Unit {0}

module _ (r : Redis) where
  open r use {F64, Db, write, zscore, hget-write, zscore-write, hget-missing, exists}

  pub status_safe :
      (w : Write F64) (db : Db)
      → IsSafe w
      → (j : String) → live (status r (write w db) j) ≡ true
      → live (status r db j) ≡ true
  unfolding key_eq
  status_safe (hset (job k) f v) db h j e = grind (arith, hget-write)
  status_safe (hdel k f) db h j e = grind (arith, hget-write)
  status_safe (hincrby k f n) db h j e = grind (arith, hget-write)
  status_safe (del k) db h j e = grind (arith, hget-write)
  status_safe _ db h j e = grind (arith, hget-write)

  pub queues_safe :
      (w : Write F64) (db : Db)
      → IsSafe w
      → (j q : String) → is_some (zscore db (queue q) j) ≡ true
      → is_some (zscore (write w db) (queue q) j) ≡ true
  unfolding key_eq
  queues_safe (zrem k m) db h j q e = absurd h
  queues_safe (del (queue k)) db h j q e = absurd h
  queues_safe _ db h j q e = grind (arith, zscore-write)

  actives_safe :
      (w : Write F64) (db : Db)
      → IsSafe w
      → (j a : String) → is_some (zscore db (active a) j) ≡ true
      → is_some (zscore (write w db) (active a) j) ≡ true
  unfolding key_eq
  actives_safe (zrem k m) db h j q e = absurd h
  actives_safe (del (active k)) db h j q e = absurd h
  actives_safe _ db h j q e = grind (arith, zscore-write)

  Held-safe :
      (w : Write F64) (db : Db) → IsSafe w → (j : String) → Held r db j → Held r (write w db) j
  Held-safe w db h j (inl (q, e)) = inl (q, queues_safe w db h j q e)
  Held-safe w db h j (inr (a, e)) = inr (a, actives_safe w db h j a e)

  pub NoLoss-safe : (w : Write F64) (db : Db) → NoLoss r db → IsSafe w → NoLoss r (write w db)
  NoLoss-safe w db n h = record {
    held = λ j e. Held-safe w db h j (n.held j (status_safe w db h j e));
  }

  pub NoLoss-if :
      {A : Type 0} (b : Bool) (x y : A × Db)
      → (b ≡ true → NoLoss r x.1)
      → (b ≡ false → NoLoss r y.1)
      → NoLoss r (if b then x else y).1
  NoLoss-if true x y f g = f refl
  NoLoss-if false x y f g = g refl

  pub NoLoss-choice :
      (b : Bool) (x y : Db) → NoLoss r x → NoLoss r y → NoLoss r (if b then x else y)
  NoLoss-choice true x y f g = f
  NoLoss-choice false x y f g = g

pub ruleset safe_rules = (NoLoss-safe, NoLoss-if, NoLoss-choice)
