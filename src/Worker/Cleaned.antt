-- ===== src/Worker/Cleaned.antt =====
-- The data after a worker's clean-up of a job in rrq-rs/orchestrator/src/worker.rs, where every call
-- is served: the active entry removed, and the lock released if it is the worker's.
use rrq.Prelude.{arith, String, true, false, none, ◌≡◌, ◌==◌, inl, inr, refl, eq_refl, Bool-cases}
use rrq.Keys.{queue, active, lock, key_eq}
use rrq.Redis.{Redis, zrem}
use rrq.Tracking.{live, status, Held}
use rrq.Scripts.{release_lock_if_owner_lua, is_owner}

module _ (redis : Redis) where
  open redis use {Db, zscore, hget-write, zscore-write}

  -- The data after the clean-up, where every call is served.
  abbrev pub cleaned : String → String → Db → Db
  cleaned id worker_id db =
      (release_lock_if_owner_lua redis (lock id) worker_id
        (redis.write (zrem (active worker_id) id) db)).1

  -- The lock's release changes neither the hash nor the sets.
  module _ (id worker_id : String) (db : Db) where
    abbrev released : Db
    released = (release_lock_if_owner_lua redis (lock id) worker_id db).1

    released-status : status redis released id ≡ status redis db id
    unfolding release_lock_if_owner_lua key_eq
    released-status = elim (Bool-cases (is_owner redis (redis.get db (lock id)) worker_id)) [
      | inl b ↦ rw (b, released, release_lock_if_owner_lua) (simp hget-write)
      | inr b ↦ rw (b, released, release_lock_if_owner_lua) refl
    ]

    released-queue : (q m : String) → zscore released (queue q) m ≡ zscore db (queue q) m
    unfolding release_lock_if_owner_lua key_eq
    released-queue q m = elim (Bool-cases (is_owner redis (redis.get db (lock id)) worker_id)) [
      | inl b ↦ rw (b, released, release_lock_if_owner_lua) (simp zscore-write)
      | inr b ↦ rw (b, released, release_lock_if_owner_lua) refl
    ]

    released-active : (a m : String) → zscore released (active a) m ≡ zscore db (active a) m
    unfolding release_lock_if_owner_lua key_eq
    released-active a m = elim (Bool-cases (is_owner redis (redis.get db (lock id)) worker_id)) [
      | inl b ↦ rw (b, released, release_lock_if_owner_lua) (simp zscore-write)
      | inr b ↦ rw (b, released, release_lock_if_owner_lua) refl
    ]

  -- A job that only this worker held is in no queue and no worker's set after it.
  pub cleaned-loses :
      (id worker_id : String) (db : Db)
      → live (status redis db id) ≡ true
      → ((q : String) → zscore db (queue q) id ≡ none)
      → ((a : String) → (worker_id == a) ≡ false → zscore db (active a) id ≡ none)
      → (live (status redis (cleaned id worker_id db) id) ≡ true)
        × ¬ Held redis (cleaned id worker_id db) id
  unfolding key_eq
  cleaned-loses id worker_id db alive unqueued untracked =
      let untrack = redis.write (zrem (active worker_id) id) db in
      rw (released-status id worker_id untrack) (
        (simp (hget-write, alive)),
        λ held. elim held [
          | inl (q, h) ↦
              (let h' = rw (released-queue id worker_id untrack q) at h in
                grind
                  (arith, zscore-write (zrem (active worker_id) id) db (queue q) id, unqueued q))
          | inr (a, h) ↦ elim (Bool-cases (worker_id == a)) [
            | inl same ↦
                (let h' = rw (released-active id worker_id untrack a) at h in
                  grind (
                    arith,
                    zscore-write (zrem (active worker_id) id) db (active a) id,
                    eq_refl,
                    untracked a,
                  ))
            | inr other ↦
                (let h' = rw (released-active id worker_id untrack a) at h in
                  grind (
                    arith,
                    zscore-write (zrem (active worker_id) id) db (active a) id,
                    eq_refl,
                    untracked a,
                  ))
          ]
        ],
      )
