-- ===== src/Tracking/Rules.antt =====
-- Which writes are about one job only, as rules for `search`.
use rrq.Prelude.{String, Bool, true, false, ◌≡◌, ◌==◌, ◌∙◌, refl, if◌then◌else◌, and_false}
use rrq.Keys.{job, queue, active, lock, key_eq}
use rrq.Redis.{Redis, Write, hset, hdel, hincrby, del, zadd, zrem}
use rrq.Tracking.{OnlyAbout}

-- A write about the job `id`: to its hash, or of `id` as a member, or to a key that tells nothing
-- of where a job is.
abbrev pub IsAbout : {Score : Type 0} → String → Write Score → Type 0
IsAbout id (hset k f v) = k ≡ job id
IsAbout id (hdel k f) = k ≡ job id
IsAbout id (hincrby k f n) = k ≡ job id
IsAbout id (zadd k m s) = m ≡ id
IsAbout id (zrem k m) = m ≡ id
IsAbout id (del (queue q)) = ⊥
IsAbout id (del (active w)) = ⊥
IsAbout id (del (job j)) = j ≡ id
IsAbout id (del k) = Unit {0}
IsAbout id w = Unit {0}

module _ (r : Redis) where
  open r use {F64, Db, write, hget, zscore, hget-write, zscore-write}

  pub OnlyAbout-refl : (id : String) (db : Db) → OnlyAbout r id db db
  OnlyAbout-refl id db = record {
    same_status = λ j o. refl;
    same_queues = λ j o q. refl;
    same_actives = λ j o w. refl;
  }

  pub OnlyAbout-trans :
      (id : String) (a b c : Db) → OnlyAbout r id a b → OnlyAbout r id b c → OnlyAbout r id a c
  OnlyAbout-trans id a b c f g = record {
    same_status = λ j o. g.same_status j o ∙ f.same_status j o;
    same_queues = λ j o q. g.same_queues j o q ∙ f.same_queues j o q;
    same_actives = λ j o w. g.same_actives j o w ∙ f.same_actives j o w;
  }

  status_one :
      (id : String) (w : Write F64) (db : Db)
      → IsAbout id w
      → (j : String) → (id == j) ≡ false
      → hget (write w db) (job j) "status" ≡ hget db (job j) "status"
  unfolding key_eq
  status_one id (hset k f v) db h j o = simp (h, hget-write, o)
  status_one id (hdel k f) db h j o = simp (h, hget-write, o)
  status_one id (hincrby k f n) db h j o = simp (h, hget-write, o)
  status_one id (del (job j')) db h j o = simp (h, hget-write, o)
  status_one id (del (queue q)) db h j o = absurd h
  status_one id (del (active w)) db h j o = absurd h
  status_one id (del (lock w)) db h j o = simp hget-write
  status_one id _ db h j o = simp hget-write

  queues_one :
      (id : String) (w : Write F64) (db : Db)
      → IsAbout id w
      → (j : String) → (id == j) ≡ false
      → (q : String) → zscore (write w db) (queue q) j ≡ zscore db (queue q) j
  unfolding key_eq
  queues_one id (zadd k m s) db h j o q = simp (h, zscore-write, o, and_false)
  queues_one id (zrem k m) db h j o q = simp (h, zscore-write, o, and_false)
  queues_one id (del (queue q')) db h j o q = absurd h
  queues_one id (del (active w)) db h j o q = absurd h
  queues_one id (del (lock w)) db h j o q = simp zscore-write
  queues_one id _ db h j o q = simp zscore-write

  actives_one :
      (id : String) (w : Write F64) (db : Db)
      → IsAbout id w
      → (j : String) → (id == j) ≡ false
      → (a : String) → zscore (write w db) (active a) j ≡ zscore db (active a) j
  unfolding key_eq
  actives_one id (zadd k m s) db h j o q = simp (h, zscore-write, o, and_false)
  actives_one id (zrem k m) db h j o q = simp (h, zscore-write, o, and_false)
  actives_one id (del (queue q')) db h j o q = absurd h
  actives_one id (del (active w)) db h j o q = absurd h
  actives_one id (del (lock w)) db h j o q = simp zscore-write
  actives_one id _ db h j o q = simp zscore-write

  -- One more write about the job, after others.
  pub OnlyAbout-write :
      (id : String) (w : Write F64) (a b : Db)
      → OnlyAbout r id a b
      → IsAbout id w
      → OnlyAbout r id a (write w b)
  OnlyAbout-write id w a b f h = OnlyAbout-trans id a b (write w b) f (record {
    same_status = status_one id w b h;
    same_queues = queues_one id w b h;
    same_actives = actives_one id w b h;
  })

  -- The two branches of a script.
  pub OnlyAbout-if :
      {A : Type 0} (id : String) (db : Db) (b : Bool) (x y : A × Db)
      → OnlyAbout r id db x.1
      → OnlyAbout r id db y.1
      → OnlyAbout r id db (if b then x else y).1
  OnlyAbout-if id db true x y f g = f
  OnlyAbout-if id db false x y f g = g

  pub OnlyAbout-choice :
      (id : String) (db : Db) (b : Bool) (x y : Db)
      → OnlyAbout r id db x
      → OnlyAbout r id db y
      → OnlyAbout r id db (if b then x else y)
  OnlyAbout-choice id db true x y f g = f
  OnlyAbout-choice id db false x y f g = g

pub ruleset about_rules = (OnlyAbout-refl, OnlyAbout-write, OnlyAbout-if, OnlyAbout-choice)
