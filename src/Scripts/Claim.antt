-- ===== src/Scripts/Claim.antt =====
-- How claim_ready.lua and lock_and_start.lua of rrq-rs/orchestrator/src/lua claim jobs.
use rrq.Prelude.{
  ℕ, zero, suc, ◌≤◌, ◌*◌, String, Bool, true, false, none, some, List, [], ◌∷◌, ◌++◌, ◌≡◌, ◌==◌,
  inl, inr, is_some, arith, eq_iff, eq_refl, All, length, leb, Bool-cases, if◌then◌else◌,
  length-append,
}
use rrq.Prelude.Int.{ℤ, pos, leb_ℤ}
use rrq.Keys.{job, lock, queue, active, key_eq}
use rrq.Redis.{Redis}
use rrq.Scripts.{lock_and_start_lua, claim_candidate, start_claimed, claim_loop, claim_ready_lua}

module _ (r : Redis) where
  open r use {
    F64, Db, hget, get, zscore, exists, hget-write, get-write, zscore-write, get-missing,
    zrangebyscore,
  }

  -- The job was free, and the worker `w` has taken it out of the queue `q`.
  pub record Claimed (q w id : String) (db db' : Db) : Type 0 where
    pub free : get db (lock id) ≡ none
    pub owner : get db' (lock id) ≡ some w
    pub unqueued : zscore db' (queue q) id ≡ none
    pub tracked : is_some (zscore db' (active w) id) ≡ true
    pub status : hget db' (job id) "status" ≡ some "ACTIVE"
    pub worker : hget db' (job id) "worker_id" ≡ some w

  module _ (q w id : String) (d e : ℤ) (start : String) (score : F64) (db : Db) where
    abbrev candidate : Bool × Db
    candidate = claim_candidate r (queue q) (active w) w d e start score id db

    -- Where the candidate is claimed, its lock was free and holds the worker's name now, the job has
    -- left the queue for the worker's active set, and its hash says ACTIVE with the worker's name.
    pub claim_candidate-Claimed : candidate.0 ≡ true → Claimed q w id db candidate.1
    unfolding claim_candidate start_claimed key_eq
    claim_candidate-Claimed h = record {
      free = grind (arith, get-missing db (lock id));
      owner = grind (arith, get-write, zscore-write, eq_refl);
      unqueued = grind (arith, get-write, zscore-write, eq_refl);
      tracked = grind (arith, get-write, zscore-write, eq_refl);
      status = grind (arith, hget-write, zscore-write, eq_refl);
      worker = grind (arith, hget-write, zscore-write, eq_refl);
    }

    abbrev started : ℤ → (ℤ × ℤ) × Db
    started timeout =
        lock_and_start_lua r (lock id) (queue q) (job id) (active w) w timeout id start score db

    -- Where the script answers {1, 1}, the job's lock was free and holds the worker's name now, the
    -- job has left the queue for the worker's active set, and its hash says ACTIVE with the worker's
    -- name.
    pub lock_and_start-Claimed :
        (timeout : ℤ) → (started timeout).0 ≡ (pos 1, pos 1) → Claimed q w id db (started timeout).1
    unfolding lock_and_start_lua start_claimed key_eq
    lock_and_start-Claimed timeout h = record {
      free = grind (arith, get-missing db (lock id));
      owner = grind (arith, get-write, zscore-write, eq_refl);
      unqueued = grind (arith, get-write, zscore-write, eq_refl);
      tracked = grind (arith, get-write, zscore-write, eq_refl);
      status = grind (arith, hget-write, zscore-write, eq_refl);
      worker = grind (arith, hget-write, zscore-write, eq_refl);
    }

    lock-claim_candidate :
        (k v : String) → get db (lock k) ≡ some v → get candidate.1 (lock k) ≡ some v
    unfolding claim_candidate start_claimed key_eq
    lock-claim_candidate k v h = elim (Bool-cases (id == k)) [
      | inl same ↦ grind (arith, get-write, get-missing db (lock id), (eq_iff id k).0 same)
      | inr other ↦ grind (arith, get-write)
    ]

    active-claim_candidate :
        (k : String)
        → is_some (zscore db (active w) k) ≡ true
        → is_some (zscore candidate.1 (active w) k) ≡ true
    unfolding claim_candidate start_claimed key_eq
    active-claim_candidate k h = grind (arith, zscore-write)

  -- A job whose lock is held is refused by both scripts, whoever asks, and the lock stays.
  pub held-refused :
      (q w id v start : String) (d e timeout : ℤ) (score : F64) (db : Db)
      → get db (lock id) ≡ some v
      → ((claim_candidate r (queue q) (active w) w d e start score id db).0 ≡ false)
        × (get (claim_candidate r (queue q) (active w) w d e start score id db).1 (lock id)
            ≡ some v)
        × (lock_and_start_lua r (lock id) (queue q) (job id) (active w) w timeout id start score db
            ≡ ((pos 0, pos 0), db))
  unfolding claim_candidate lock_and_start_lua key_eq
  held-refused q w id v start d e timeout score db h = (
    grind (arith, get-missing db (lock id)),
    grind (arith, get-missing db (lock id), get-write),
    grind (arith, get-missing db (lock id)),
  )

  -- A claimed job, in the data at the end of the loop.
  abbrev Taken : String → Db → String → Type 0
  Taken w db id = (get db (lock id) ≡ some w) × (is_some (zscore db (active w) id) ≡ true)

  module _ (q w start : String) (max : ℕ) (d e : ℤ) (score : F64) where
    abbrev loop : List String → List String → Db → List String × Db
    loop ids claimed db = claim_loop r (queue q) (active w) w max d e start score ids claimed db

    abbrev try : String → Db → Bool × Db
    try id db = claim_candidate r (queue q) (active w) w d e start score id db

    Taken-kept :
        (id : String) (db : Db) (ids : List String)
        → All (Taken w db) ids
        → All (Taken w (try id db).1) ids
    Taken-kept id db [] h = tt
    Taken-kept id db (k ∷ ks) ((l, a), h) = (
      (
        lock-claim_candidate q w id d e start score db k w l,
        active-claim_candidate q w id d e start score db k a,
      ),
      Taken-kept id db ks h,
    )

    All-append :
        (P : String → Type 0) (xs : List String) (x : String)
        → All P xs
        → P x
        → All P (xs ++ x ∷ [])
    All-append P [] x h p = (p, tt)
    All-append P (y ∷ ys) x (p', h) p = (p', All-append P ys x h p)

    -- What the loop keeps of the jobs claimed so far.
    Taken-next :
        (id : String) (claimed : List String) (db : Db)
        → All (Taken w db) claimed
        → All (Taken w (try id db).1) (if (try id db).0 then claimed ++ id ∷ [] else claimed)
    Taken-next id claimed db h = elim (Bool-cases (try id db).0) [
      | inl t ↦ rw t (
          let c = claim_candidate-Claimed q w id d e start score db t in
          All-append _ claimed id (Taken-kept id db claimed h) (c.owner, c.tracked))
      | inr f ↦ rw f (Taken-kept id db claimed h)
    ]

    loop-Taken :
        (ids claimed : List String) (db : Db)
        → All (Taken w db) claimed
        → All (Taken w (loop ids claimed db).1) (loop ids claimed db).0
    unfolding claim_loop
    loop-Taken [] claimed db h = h
    loop-Taken (id ∷ ids) claimed db h = elim (Bool-cases (leb max (length claimed))) [
      | inl full ↦ rw (full, claim_loop) h
      | inr room ↦
          rw (room, claim_loop) (loop-Taken ids _ (try id db).1 (Taken-next id claimed db h))
    ]

    loop-length :
        (ids claimed : List String) (db : Db)
        → length claimed ≤ max
        → length (loop ids claimed db).0 ≤ max
    unfolding claim_loop
    loop-length [] claimed db h = h
    loop-length (id ∷ ids) claimed db h = elim (Bool-cases (leb max (length claimed))) [
      | inl full ↦ rw (full, claim_loop) h
      | inr room ↦
          rw (room, claim_loop)
            (loop-length ids _ (try id db).1 (elim (Bool-cases (try id db).0) [
              | inl t ↦ rw t (grind (arith, length-append claimed (id ∷ [])))
              | inr f ↦ rw f h
            ]))
    ]

  module _ (q w start : String) (now : ℤ) (d e : ℤ) (score : F64) where
    abbrev ready : ℕ → Db → List String × Db
    ready max db = claim_ready_lua r (queue q) (active w) w now max d e start score db

    -- Each job that claim_ready.lua returns has its lock in the worker's name and is in the
    -- worker's active set, and at most `max` jobs are returned.
    pub claim_ready-Taken :
        (max : ℕ) (db : Db)
        → All (Taken w (ready max db).1) (ready max db).0 × (length (ready max db).0 ≤ max)
    unfolding claim_ready_lua
    claim_ready-Taken zero db = (tt, omega arith)
    claim_ready-Taken (suc n) db = elim (Bool-cases (leb_ℤ d (pos 0))) [
      | inl none_left ↦ rw (none_left, claim_ready_lua) (tt, omega arith)
      | inr some_left ↦
          rw (some_left, claim_ready_lua)
            (
              loop-Taken q w start (suc n) d e score (zrangebyscore db (queue q) now (suc n * 4)) []
                  db tt,
              loop-length q w start (suc n) d e score (zrangebyscore db (queue q) now (suc n * 4))
                  [] db (omega arith),
            )
    ]
