-- ===== src/Producer/Scripts/Debounce.antt =====
-- What a second call of the debounce script does with the same key.
use rrq.Prelude.{
  ℕ, String, true, false, Option, none, some, ◌≡◌, ◌==◌, ◌&&◌, if◌then◌else◌, refl, inl, inr, arith,
  eq_refl, Bool-cases, Option-cases, subst, ap, eq_iff,
}
use rrq.Prelude.Int.{ℤ, pos, ◌*ℤ◌, ltb_ℤ}
use rrq.Keys.{Key, job, queue, debounce, key_eq}
use rrq.Redis.{Redis, hset, hdel, expire}
use rrq.Scripts.{hset_unless_empty, is_owner}
use rrq.Producer.Scripts.{
  NewJob, create_job, reschedule, pending_job, debounce_new, debounce_script, expire_if,
  set_or_drop,
}
use rrq.Producer.Scripts.Once.{
  exists-create_job, get-create_job, get-hset_unless_empty, exists-forget_stale, IsText,
}
use rrq.Producer.Scripts.Rescheduled.{
  hget-expire_if, hget-reschedule, exists-reschedule, zscore-reschedule,
}

module _ (r : Redis) where
  open r use {
    F64, Db, write, hget, get, zscore, exists, hget-write, get-write, zscore-write,
    exists-write_other, exists-hset, exists-set, exists-del, get-missing,
  }

  -- The key names a job that still waits.
  abbrev Waits : String → String → Db → Type 0
  Waits k id db =
      (get db (debounce k) ≡ some id)
      × (exists db (job id) ≡ true)
      × (hget db (job id) "status" ≡ some "PENDING")

  status-hset_unless_empty :
      (id f v : String) (db : Db)
      → (f == "status") ≡ false
      → hget (hset_unless_empty r (job id) f v db) (job id) "status" ≡ hget db (job id) "status"
  unfolding key_eq
  status-hset_unless_empty id f v db h = grind (arith, hget-write, eq_refl)

  status-create_job :
      (id q : String) (j : NewJob) (score : F64) (db : Db)
      → hget (create_job r (job id) (queue q) j score db) (job id) "status" ≡ some j.status
  unfolding create_job key_eq
  status-create_job id q j score db = simp (hget-write, status-hset_unless_empty, eq_refl)

  is_owner-some : (o : Option String) (w : String) → is_owner r o w ≡ true → o ≡ some w
  is_owner-some none w h = grind arith
  is_owner-some (some owner) w h = ap some ((eq_iff owner w).0 h)

  debounce_new-Waits :
      (q k id : String) (n : ℕ) (j : NewJob) (score : F64) (ttl : ℤ) (db : Db)
      → j.status ≡ "PENDING"
      → exists db (debounce k) ≡ false
      → (debounce_new r (queue q) (debounce k) j score ttl db).0 ≡ (pos n, id)
      → Waits k id (debounce_new r (queue q) (debounce k) j score ttl db).1
  unfolding debounce_new key_eq
  debounce_new-Waits q k id n j score ttl db p free h =
      elim (Bool-cases (exists db (job j.job_id))) [
        | inl e ↦ (let h' = rw (e, debounce_new) at h in grind arith)
        | inr e ↦
            (let h' = rw (e, free, debounce_new) at h in
              rw (e, free, debounce_new)
                (
                  grind (arith, get-create_job, get-write, eq_refl),
                  grind (arith, exists-create_job),
                  grind (arith, status-create_job),
                ))
      ]

  -- The key's name is in no hash, queue or expiry.
  get-set_or_drop :
      (id f v : String) (db : Db) (k : Key) → get (set_or_drop r (job id) f v db) k ≡ get db k
  get-set_or_drop id f v db k = elim (Bool-cases (v == "")) [
    | inl e ↦ rw (e, set_or_drop) (get-write (hdel (job id) f) db k)
    | inr e ↦ rw (e, set_or_drop) (get-write (hset (job id) f v) db k)
  ]

  get-expire_if :
      (k' : Key) (ttl : ℤ) (db : Db) (k : Key) → get (expire_if r k' ttl db) k ≡ get db k
  get-expire_if k' ttl db k = elim (Bool-cases (ltb_ℤ (pos 0) ttl)) [
    | inl e ↦ rw (e, expire_if) (get-write (expire k' (ttl *ℤ pos 1000)) db k)
    | inr e ↦ rw (e, expire_if) refl
  ]

  status-set_or_drop :
      (id f v : String) (db : Db)
      → (f == "status") ≡ false
      → hget (set_or_drop r (job id) f v db) (job id) "status" ≡ hget db (job id) "status"
  unfolding key_eq
  status-set_or_drop id f v db h = elim (Bool-cases (v == "")) [
    | inl e ↦ rw (e, set_or_drop) (simp (hget-write, eq_refl, h))
    | inr e ↦ rw (e, set_or_drop) (simp (hget-write, eq_refl, h))
  ]

  -- A hash with a status is there.
  exists-status :
      (db : Db) (k : Key) (v : String) → hget db k "status" ≡ some v → exists db k ≡ true
  exists-status db k v h = elim (Bool-cases (exists db k)) [
    | inl e ↦ e
    | inr e ↦ (let gone = r.hget-missing db k "status" e in grind arith)
  ]

  reschedule-Waits :
      (q k id : String) (j : NewJob) (score : F64) (ttl : ℤ) (db : Db)
      → Waits k id db
      → Waits k id (reschedule r (queue q) (debounce k) id j score ttl db)
  unfolding reschedule key_eq
  reschedule-Waits q k id j score ttl db (named, there, waits) =
      let waiting : hget (reschedule r (queue q) (debounce k) id j score ttl db) (job id) "status"
          ≡ some "PENDING" =
        simp (
          hget-expire_if r,
          hget-write,
          status-set_or_drop,
          status-hset_unless_empty,
          eq_refl,
          waits,
        ) in
      (
        simp (get-expire_if, get-write, get-set_or_drop, get-hset_unless_empty, named),
        exists-status _ (job id) "PENDING" waiting,
        waiting,
      )

  pending_job-Waits :
      (k id : String) (db : Db) → pending_job r (get db (debounce k)) db ≡ some id → Waits k id db
  pending_job-Waits k id db h = elim (Option-cases (get db (debounce k))) [
    | inl e ↦ (let h' = rw (e, pending_job) at h in grind arith)
    | inr (old, e) ↦ elim (Bool-cases (exists db (job old))) [
      | inl there ↦ elim (Bool-cases (is_owner r (hget db (job old) "status") "PENDING")) [
        | inl waits ↦
            (let h' = rw (e, pending_job, there, waits) at h in
              let owned = is_owner-some (hget db (job old) "status") "PENDING" waits in
              (grind arith, grind arith, grind arith))
        | inr other ↦ (let h' = rw (e, pending_job, there, other) at h in grind arith)
      ]
      | inr gone ↦ (let h' = rw (e, pending_job, gone) at h in grind arith)
    ]
  ]

  debounce-Waits :
      (q k id : String) (n : ℕ) (j : NewJob) (score : F64) (ttl : ℤ) (db : Db)
      → j.status ≡ "PENDING"
      → IsText r (debounce k) db
      → (debounce_script r (queue q) (debounce k) j score ttl db).0 ≡ (pos n, id)
      → Waits k id (debounce_script r (queue q) (debounce k) j score ttl db).1
  unfolding debounce_script
  debounce-Waits q k id n j score ttl db p t h =
      elim (Option-cases (pending_job r (get db (debounce k)) db)) [
        | inl e ↦
            (let h' = rw (e, debounce_script) at h in
              rw (e, debounce_script)
                (debounce_new-Waits q k id n j score ttl _ p
                  (exists-forget_stale r (debounce k) (get db (debounce k)) db refl t) h'))
        | inr (old, e) ↦
            (let h' = rw (e, debounce_script) at h in
              let same : old ≡ id = grind arith in
              rw (e, debounce_script)
                (subst (λ x. Waits k x (reschedule r (queue q) (debounce k) old j score ttl db))
                  same (reschedule-Waits q k old j score ttl db (pending_job-Waits k old db e))))
      ]

  debounce-waiting :
      (q k id : String) (j : NewJob) (score : F64) (ttl : ℤ) (db : Db)
      → Waits k id db
      → debounce_script r (queue q) (debounce k) j score ttl db
        ≡ ((pos 0, id), reschedule r (queue q) (debounce k) id j score ttl db)
  unfolding debounce_script
  debounce-waiting q k id j score ttl db (named, there, waits) =
      rw (named, pending_job, there, waits, debounce_script) refl

  -- Once the debounce script has answered a call for a pending job by an id, it answers the next
  -- call with the key by the same id, whatever the job and the queue. That call creates no job and
  -- leaves the hashes of other jobs as they were, and of the entries of all queues it sets that of
  -- the id in its own queue to its score and no other, so that an entry in another queue stays. The
  -- key must hold a text, if anything.
  pub debounce-once :
      (q k id : String) (n : ℕ) (j : NewJob) (score : F64) (ttl : ℤ) (db : Db) (q' : String)
      (j' : NewJob) (score' : F64) (ttl' : ℤ) (x f y m : String)
      → j.status ≡ "PENDING"
      → IsText r (debounce k) db
      → (debounce_script r (queue q) (debounce k) j score ttl db).0 ≡ (pos n, id)
      → (id == x) ≡ false
      → let first = debounce_script r (queue q) (debounce k) j score ttl db in
        let second = debounce_script r (queue q') (debounce k) j' score' ttl' first.1 in
        (second.0 ≡ (pos 0, id))
        × (exists second.1 (job x) ≡ exists first.1 (job x))
        × (hget second.1 (job x) f ≡ hget first.1 (job x) f)
        × (zscore second.1 (queue y) m
            ≡ (if q' == y && id == m then some score' else zscore first.1 (queue y) m))
  debounce-once q k id n j score ttl db q' j' score' ttl' x f y m p t h other =
      rw (debounce-waiting q' k id j' score' ttl' _ (debounce-Waits q k id n j score ttl db p t h))
        (
          refl,
          exists-reschedule r id x other q' k j' score' ttl' _,
          hget-reschedule r q' k id x f j' score' ttl' _ other,
          zscore-reschedule r q' k id y m j' score' ttl' _,
        )
