-- ===== src/Redis.antt =====
-- What the program relies on of Redis, which is not part of the repository: the interface that
-- the modules of the store, the worker, the client and the producer take as a parameter.
--
-- `Db` is the server's data. The program reads it by five observations and changes it by the
-- writes below; the laws say, for each observation, what one write does to it, as the commands'
-- documentation does. A script (EVAL) is a function of `Db`: Redis runs it with no other command
-- in between. That a key with a TTL may vanish is a write of the environment, `del`.
pub mod Calls
pub mod Triples
pub mod Log
use rrq.Prelude.{
  ℕ, ◌≤◌, String, Bool, true, false, ◌&&◌, Option, none, some, List, [], ◌∷◌, ◌≡◌, ◌==◌,
  if◌then◌else◌, is_some, length, All,
}
use rrq.Prelude.Int.{ℤ, pos, checked_add}
use rrq.Keys.{Key, key_eq}
use rrq.Float.{Float}

-- One command that changes data. A score is an f64, and a TTL is in milliseconds.
pub data Write (Score : Type 0) : Type 0 where
  hset : Key → String → String → Write Score
  hdel : Key → String → Write Score
  hincrby : Key → String → ℤ → Write Score
  set : Key → String → Option ℤ → Write Score
  del : Key → Write Score
  zadd : Key → String → Score → Write Score
  zrem : Key → String → Write Score
  lpush : Key → String → Write Score
  lrem : Key → String → Write Score
  xadd : Key → List (String × String) → Write Score
  expire : Key → ℤ → Write Score
  persist : Key → Write Score

-- LREM key 1 element: the first occurrence.
unfoldable pub remove_first : String → List String → List String
remove_first x [] = []
remove_first x (y ∷ ys) = if y == x then ys else y ∷ remove_first x ys

-- HINCRBY on a field: a missing field counts as 0, and `none` is the error reply to a text that is
-- no 64-bit integer, or to an overflow.
abbrev pub incremented : (String → Option ℤ) → Option String → ℤ → Option ℤ
incremented parse none n = checked_add (pos 0) n
incremented parse (some s) n = elim (parse s) [ none ↦ none | some m ↦ checked_add m n ]

module _ {Score : Type 0} where
  -- What a write does to the observation of one place, given what was there.
  abbrev pub hget_after :
      (String → Option ℤ)
      → (ℤ → String)
      → Write Score
      → Key
      → String
      → Option String
      → Option String
  hget_after parse show (hset k f v) key field old =
      if key_eq k key && f == field then some v else old
  hget_after parse show (hdel k f) key field old = if key_eq k key && f == field then none else old
  hget_after parse show (hincrby k f n) key field old =
      if key_eq k key && f == field
      then elim (incremented parse old n) [ none ↦ old | some m ↦ some (show m) ]
      else old
  hget_after parse show (del k) key field old = if key_eq k key then none else old
  hget_after parse show _ key field old = old

  abbrev pub get_after : Write Score → Key → Option String → Option String
  get_after (set k v ttl) key old = if key_eq k key then some v else old
  get_after (del k) key old = if key_eq k key then none else old
  get_after _ key old = old

  abbrev pub zscore_after : Write Score → Key → String → Option Score → Option Score
  zscore_after (zadd k m s) key member old = if key_eq k key && m == member then some s else old
  zscore_after (zrem k m) key member old = if key_eq k key && m == member then none else old
  zscore_after (del k) key member old = if key_eq k key then none else old
  zscore_after _ key member old = old

  abbrev pub lrange_after : Write Score → Key → List String → List String
  lrange_after (lpush k v) key old = if key_eq k key then v ∷ old else old
  lrange_after (lrem k v) key old = if key_eq k key then remove_first v old else old
  lrange_after (del k) key old = if key_eq k key then [] else old
  lrange_after _ key old = old

  abbrev pub xrange_after :
      Write Score → Key → List (List (String × String)) → List (List (String × String))
  xrange_after (xadd k e) key old = if key_eq k key then e ∷ old else old
  xrange_after (del k) key old = if key_eq k key then [] else old
  xrange_after _ key old = old

  -- The key that a write is about.
  abbrev pub key_of : Write Score → Key
  key_of (hset k f v) = k
  key_of (hdel k f) = k
  key_of (hincrby k f n) = k
  key_of (set k v ttl) = k
  key_of (del k) = k
  key_of (zadd k m s) = k
  key_of (zrem k m) = k
  key_of (lpush k v) = k
  key_of (lrem k v) = k
  key_of (xadd k e) = k
  key_of (expire k t) = k
  key_of (persist k) = k

pub record Redis : Type 1 where
  pub floats : Float
  pub open floats use *
  pub Db : Type 0
  pub write : Write floats.F64 → Db → Db
  -- HGET, GET, ZSCORE, LRANGE 0 -1 and XREVRANGE + -.
  pub hget : Db → Key → String → Option String
  pub get : Db → Key → Option String
  pub zscore : Db → Key → String → Option floats.F64
  pub lrange : Db → Key → List String
  pub xrange : Db → Key → List (List (String × String))
  -- EXISTS, and PTTL where the key has a TTL.
  pub exists : Db → Key → Bool
  pub pttl : Db → Key → Option ℤ
  -- ZRANGEBYSCORE key -inf max LIMIT 0 count, and ZRANGE key 0 -1.
  pub zrangebyscore : Db → Key → ℤ → ℕ → List String
  pub zrange : Db → Key → List String
  -- How HINCRBY reads and writes an integer field.
  pub parse_int : String → Option ℤ
  pub show_int : ℤ → String
  pub hget-write :
      (w : Write floats.F64) (db : Db) (k : Key) (f : String)
      → hget (write w db) k f ≡ hget_after parse_int show_int w k f (hget db k f)
  pub get-write :
      (w : Write floats.F64) (db : Db) (k : Key) → get (write w db) k ≡ get_after w k (get db k)
  pub zscore-write :
      (w : Write floats.F64) (db : Db) (k : Key) (m : String)
      → zscore (write w db) k m ≡ zscore_after w k m (zscore db k m)
  pub lrange-write :
      (w : Write floats.F64) (db : Db) (k : Key)
      → lrange (write w db) k ≡ lrange_after w k (lrange db k)
  pub xrange-write :
      (w : Write floats.F64) (db : Db) (k : Key)
      → xrange (write w db) k ≡ xrange_after w k (xrange db k)
  pub exists-write_other :
      (w : Write floats.F64) (db : Db) (k : Key)
      → key_eq (key_of w) k ≡ false
      → exists (write w db) k ≡ exists db k
  pub exists-hset : (k : Key) (f v : String) (db : Db) → exists (write (hset k f v) db) k ≡ true
  pub exists-set :
      (k : Key) (v : String) (ttl : Option ℤ) (db : Db) → exists (write (set k v ttl) db) k ≡ true
  pub exists-del : (k : Key) (db : Db) → exists (write (del k) db) k ≡ false
  pub hget-missing : (db : Db) (k : Key) (f : String) → exists db k ≡ false → hget db k f ≡ none
  pub get-missing : (db : Db) (k : Key) → exists db k ≡ false → get db k ≡ none
  pub pttl-set :
      (k : Key) (v : String) (ttl : Option ℤ) (db : Db) → pttl (write (set k v ttl) db) k ≡ ttl
  pub pttl-expire :
      (k : Key) (t : ℤ) (db : Db) → exists db k ≡ true → pttl (write (expire k t) db) k ≡ some t
  pub pttl-missing : (db : Db) (k : Key) → exists db k ≡ false → pttl db k ≡ none
  pub zrangebyscore-member :
      (db : Db) (k : Key) (top : ℤ) (n : ℕ)
      → All (λ m. is_some (zscore db k m) ≡ true) (zrangebyscore db k top n)
  pub length-zrangebyscore :
      (db : Db) (k : Key) (top : ℤ) (n : ℕ) → length (zrangebyscore db k top n) ≤ n
