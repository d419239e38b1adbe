-- ===== src/Redis/Log.antt =====
-- An instance of the interface `Redis`: the data are the list of the writes so far, the last one
-- first, and an observation folds what each write does to it. A score is an integer.
use Prim.Native.Char.{code}
use rrq.Prelude.{
  ℕ, zero, suc, String, Bool, true, false, ◌&&◌, Option, none, some, List, [], ◌∷◌, ◌≡◌, refl, ap,
  if◌then◌else◌, is_some, All, take, nat_eq, arith, eq_refl, length-take-le,
}
use rrq.Prelude.Int.{ℤ, pos, negsuc, ◌+ℤ◌, ◌*ℤ◌, ◌≤ℤ◌, leb_ℤ}
use rrq.Float.{Float}
use rrq.Keys.{Key, key_eq}
use rrq.Redis.{
  Redis, Write, hset, hdel, set, del, zadd, zrem, lrem, expire, persist, key_of, hget_after,
  get_after, zscore_after, lrange_after, xrange_after,
}

-- Integers written in unary, behind their sign.
abbrev unary : ℕ → String
unary zero = ""
unary (suc n) = String.◌∷◌ "i" (unary n)

abbrev count : String → ℕ
count String.[] = 0
count (String.◌∷◌ c s) = suc (count s)

abbrev pub int_text : ℤ → String
int_text (pos n) = String.◌∷◌ "+" (unary n)
int_text (negsuc n) = String.◌∷◌ "-" (unary n)

abbrev pub int_of : String → Option ℤ
int_of String.[] = none
int_of (String.◌∷◌ c s) =
    if nat_eq (code c) b'+'
    then some (pos (count s))
    else if nat_eq (code c) b'-'
    then some (negsuc (count s))
    else none

count-unary : (n : ℕ) → count (unary n) ≡ n
count-unary zero = refl
count-unary (suc n) = ap suc (count-unary n)

pub int_of-int_text : (n : ℤ) → int_of (int_text n) ≡ some n
int_of-int_text (pos n) = ap (λ k. some (pos k)) (count-unary n)
int_of-int_text (negsuc n) = ap (λ k. some (negsuc k)) (count-unary n)

-- Scores as integers.
abbrev min_ℤ : ℤ → ℤ → ℤ
min_ℤ a b = if leb_ℤ a b then a else b

pub min_ℤ-le : (a b : ℤ) → min_ℤ a b ≤ℤ b
min_ℤ-le a b = ground arith

abbrev pub int_floats : Float
int_floats = record {
  F64 = ℤ;
  of_int = λ n. n;
  of_nat = pos;
  add = ◌+ℤ◌;
  mul = ◌*ℤ◌;
  min = min_ℤ;
  le = ◌≤ℤ◌;
  min-le = min_ℤ-le;
}

abbrev Log : Type 0
Log = List (Write ℤ)

abbrev hget : Log → Key → String → Option String
hget [] k f = none
hget (w ∷ db) k f = hget_after int_of int_text w k f (hget db k f)

abbrev get : Log → Key → Option String
get [] k = none
get (w ∷ db) k = get_after w k (get db k)

abbrev zscore : Log → Key → String → Option ℤ
zscore [] k m = none
zscore (w ∷ db) k m = zscore_after w k m (zscore db k m)

abbrev lrange : Log → Key → List String
lrange [] k = []
lrange (w ∷ db) k = lrange_after w k (lrange db k)

abbrev xrange : Log → Key → List (List (String × String))
xrange [] k = []
xrange (w ∷ db) k = xrange_after w k (xrange db k)

-- A key is there from its first write to its deletion.
abbrev exists_after : Write ℤ → Key → Bool → Bool
exists_after (del k) key old = if key_eq k key then false else old
exists_after (expire k t) key old = old
exists_after (persist k) key old = old
exists_after (hdel k f) key old = old
exists_after (zrem k m) key old = old
exists_after (lrem k m) key old = old
exists_after w key old = if key_eq (key_of w) key then true else old

abbrev exists : Log → Key → Bool
exists [] k = false
exists (w ∷ db) k = exists_after w k (exists db k)

abbrev pttl_after : Write ℤ → Key → Bool → Option ℤ → Option ℤ
pttl_after (set k v ttl) key there old = if key_eq k key then ttl else old
pttl_after (del k) key there old = if key_eq k key then none else old
pttl_after (persist k) key there old = if key_eq k key then none else old
pttl_after (expire k t) key there old = if there && key_eq k key then some t else old
pttl_after w key there old = old

abbrev pttl : Log → Key → Option ℤ
pttl [] k = none
pttl (w ∷ db) k = pttl_after w k (exists db k) (pttl db k)

-- The members that were ever added to a set, and those of them that are due.
abbrev added : Log → Key → List String
added [] k = []
added (zadd q m s ∷ db) k = if key_eq q k then m ∷ added db k else added db k
added (w ∷ db) k = added db k

abbrev due : Log → Key → ℤ → String → Bool
due db k top m = elim (zscore db k m) [ none ↦ false | some s ↦ leb_ℤ s top ]

abbrev select : (String → Bool) → List String → List String
select p [] = []
select p (x ∷ xs) = if p x then x ∷ select p xs else select p xs

abbrev in_set : Log → Key → String → Bool
in_set db k m = is_some (zscore db k m)

due-in_set :
    (db : Log) (k : Key) (top : ℤ) (m : String) → due db k top m ≡ true → in_set db k m ≡ true
due-in_set db k top m h = grind (arith)

All-if :
    (P : String → Type 0) (b : Bool) (x : String) (ys : List String)
    → (b ≡ true → P x)
    → All P ys
    → All P (if b then x ∷ ys else ys)
All-if P true x ys h hs = (h refl, hs)
All-if P false x ys h hs = hs

pub All-select :
    (db : Log) (k : Key) (top : ℤ) (xs : List String)
    → All (λ m. in_set db k m ≡ true) (select (due db k top) xs)
All-select db k top [] = tt
All-select db k top (x ∷ xs) =
    All-if _ (due db k top x) x _ (due-in_set db k top x) (All-select db k top xs)

pub All-take : (P : String → Type 0) (n : ℕ) (xs : List String) → All P xs → All P (take n xs)
All-take P zero xs h = tt
All-take P (suc n) [] h = tt
All-take P (suc n) (x ∷ xs) (p, h) = (p, All-take P n xs h)

pub exists-write_other :
    (w : Write ℤ) (db : Log) (k : Key)
    → key_eq (key_of w) k ≡ false
    → exists (w ∷ db) k ≡ exists db k
exists-write_other w db k h = grind (arith)

pub key_eq_refl : (k : Key) → key_eq k k ≡ true
unfolding key_eq
key_eq_refl k = grind (arith, eq_refl)

pub hget-missing : (db : Log) (k : Key) (f : String) → exists db k ≡ false → hget db k f ≡ none
hget-missing [] k f h = refl
hget-missing (hset q g v ∷ db) k f h = grind (arith, hget-missing db k f)
hget-missing (w ∷ db) k f h = grind (arith, hget-missing db k f)

pub get-missing : (db : Log) (k : Key) → exists db k ≡ false → get db k ≡ none
get-missing [] k h = refl
get-missing (set q v ttl ∷ db) k h = grind (arith, get-missing db k)
get-missing (w ∷ db) k h = grind (arith, get-missing db k)

pub pttl-missing : (db : Log) (k : Key) → exists db k ≡ false → pttl db k ≡ none
pttl-missing [] k h = refl
pttl-missing (w ∷ db) k h = grind (arith, pttl-missing db k)

abbrev pub log_redis : Redis
log_redis = record {
  floats = int_floats;
  Db = Log;
  write = λ w db. w ∷ db;
  hget = hget;
  get = get;
  zscore = zscore;
  lrange = lrange;
  xrange = xrange;
  exists = exists;
  pttl = pttl;
  zrangebyscore = λ db k top n. take n (select (due db k top) (added db k));
  zrange = λ db k. select (in_set db k) (added db k);
  parse_int = int_of;
  show_int = int_text;
  hget-write = λ w db k f. refl;
  get-write = λ w db k. refl;
  zscore-write = λ w db k m. refl;
  lrange-write = λ w db k. refl;
  xrange-write = λ w db k. refl;
  exists-write_other = exists-write_other;
  exists-hset = λ k f v db. rw (key_eq_refl k) refl;
  exists-set = λ k v ttl db. rw (key_eq_refl k) refl;
  exists-del = λ k db. rw (key_eq_refl k) refl;
  hget-missing = hget-missing;
  get-missing = get-missing;
  pttl-set = λ k v ttl db. rw (key_eq_refl k) refl;
  pttl-expire = λ k t db h. rw (h, key_eq_refl k) refl;
  pttl-missing = pttl-missing;
  zrangebyscore-member = λ db k top n. All-take _ n _ (All-select db k top (added db k));
  length-zrangebyscore = λ db k top n. length-take-le n _;
}
