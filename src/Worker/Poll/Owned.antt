-- ===== src/Worker/Poll/Owned.antt =====
-- What holds of a job's lock where `poll_for_jobs` of rrq-rs/orchestrator/src/worker.rs starts it.
use rrq.Prelude.{
  ℕ, suc, String, Bool, true, false, ◌||◌, Option, none, some, List, ◌≡◌, refl, inl, inr, arith,
  leb, Bool-cases, eq_iff, ap, ◌∙◌,
}
use rrq.Prelude.Int.{ℤ, pos, leb_ℤ}
use rrq.Keys.{lock}
use rrq.Redis.{Redis, expire}
use rrq.Redis.Calls.{World, Io, Result, ok, err, attempt}
use rrq.Redis.Triples.{
  Triple, Ends, Triple-any, Triple-bind, Triple-if, Triple-pure, Triple-fail, Triple-call,
  Triple-attempt, Triple-returned,
}
use rrq.Job.{Job}
use rrq.Platform.{Platform, RrqSettings}
use rrq.Scripts.{refresh_lock_lua, is_owner}
use rrq.Store.{nonzero, refresh_job_lock_timeout}
use rrq.Worker.Poll.{
  Poller, Progress, go_on, stop, Surroundings, dispatch, on_refreshed, on_timeout, on_definition,
  poll_job, spawn, lock_timeout_ms, def_at,
}

abbrev number : Progress → ℕ
number (go_on n) = n
number (stop n) = n

module _ (r : Redis) where
  open r use {get, pttl, exists, get-missing, pttl-expire, get-write}

  -- The worker holds the job's lock, which vanishes after the timeout.
  pub record LockedFor (id worker_id : String) (timeout : ℤ) (db : r.Db) : Type 0 where
    pub owner : get db (lock id) ≡ some worker_id
    pub ttl : pttl db (lock id) ≡ some timeout

  owner_of : (o : Option String) (w : String) → is_owner r o w ≡ true → o ≡ some w
  owner_of none w h = cc
  owner_of (some o) w h = ap some ((eq_iff o w).0 h)

  exists_of :
      (db : r.Db) (id : String) {w : String}
      → get db (lock id) ≡ some w
      → exists db (lock id) ≡ true
  exists_of db id e = elim (Bool-cases (exists db (lock id))) [
    | inl there ↦ there
    | inr gone ↦ cc (get-missing db (lock id) gone)
  ]

  refreshed-LockedFor :
      (id worker_id : String) (timeout : ℤ) (db : r.Db)
      → (refresh_lock_lua r (lock id) worker_id timeout db).0 ≡ pos 1
      → LockedFor id worker_id timeout (refresh_lock_lua r (lock id) worker_id timeout db).1
  unfolding refresh_lock_lua
  refreshed-LockedFor id worker_id timeout db h =
      elim (Bool-cases (is_owner r (get db (lock id)) worker_id)) [
        | inl mine ↦
            let owned = owner_of (get db (lock id)) worker_id mine in
            rw (mine, refresh_lock_lua)
              (record {
                owner = get-write (expire (lock id) timeout) db (lock id) ∙ owned;
                ttl = pttl-expire (lock id) timeout db (exists_of db id owned);
              })
        | inr other ↦ (let h' = rw (other, refresh_lock_lua) at h in cc)
      ]

not_next : {A : Type 0} (n : ℕ) → go_on n ≡ go_on (suc n) → A
not_next n e = absurd (omega (arith, ap number e))

module _ (p : Platform) (settings : RrqSettings p.redis.floats.F64) where
  open p use {redis, codec}
  open redis use {Db}

  refresh-LockedFor :
      (id worker_id : String) (timeout : ℤ)
      → Triple
          (λ _. Unit {0})
          (refresh_job_lock_timeout p id worker_id timeout)
          (λ refreshed db. refreshed ≡ true → LockedFor redis id worker_id timeout db)
          (λ _. Unit {0})
  unfolding refresh_job_lock_timeout refresh_lock_lua
  refresh-LockedFor id worker_id timeout =
      Triple-if (leb_ℤ timeout (pos 0)) _ _ (λ _. Triple-fail _ (λ _ _. tt))
        (λ _.
          Triple-bind
            (λ refreshed db. nonzero p refreshed ≡ true → LockedFor redis id worker_id timeout db) _
            _
            (Triple-call _ (λ db _ h. refreshed-LockedFor redis id worker_id timeout db (one db h))
              (λ _ _. tt) (λ _ _. tt))
            (λ refreshed. Triple-pure _ (λ _ h. h)))
    where
      one :
          (db : Db)
          → nonzero p (refresh_lock_lua redis (lock id) worker_id timeout db).0 ≡ true
          → (refresh_lock_lua redis (lock id) worker_id timeout db).0 ≡ pos 1
      one db h = elim (Bool-cases (is_owner redis (redis.get db (lock id)) worker_id)) [
        | inl mine ↦ rw (mine, refresh_lock_lua) refl
        | inr other ↦ (let h' = rw (other, refresh_lock_lua) at h in cc)
      ]

  module _ (worker : Poller) (around : Surroundings p settings) (first : Bool) (offset : ℕ)
      (queue_name : String) (claimed : List String) (defs : List (Option (Job codec)))
      (index fetched : ℕ) where
    -- What holds where the job with the definition has been started.
    pub record IsReady (d : Option (Job codec)) (db : Db) : Type 0 where
      pub j : Job codec
      pub timeout : ℤ
      pub defined : d ≡ some j
      pub valid : lock_timeout_ms p settings j ≡ some timeout
      pub positive : leb_ℤ timeout (pos 0) ≡ false
      pub locked : LockedFor redis j.id worker.worker_id timeout db

    abbrev Starts : (Db → Type 0) → Option (Job codec) → Io redis Progress → Type 0
    Starts P d m =
        Triple P m (λ progress db. progress ≡ go_on (suc fetched) → IsReady d db) (λ _. Unit {0})

    refreshed-Starts :
        (j : Job codec) (t : ℤ) (res : Result {0} Bool)
        → lock_timeout_ms p settings j ≡ some t
        → leb_ℤ t (pos 0) ≡ false
        → Starts
            (Ends
              (λ refreshed db. refreshed ≡ true → LockedFor redis j.id worker.worker_id t db)
              (λ _. Unit {0})
              res)
            (some j)
            (on_refreshed p settings worker around first offset queue_name claimed defs j index
              fetched res)
    unfolding spawn
    refreshed-Starts j t (err e) v h =
        Triple-bind _ _ _ (Triple-any _) (λ _. Triple-fail e (λ _ _. tt))
    refreshed-Starts j t (ok false) v h =
        Triple-bind _ _ _ (Triple-any _) (λ _. Triple-pure _ (λ _ _ e. not_next fetched e))
    refreshed-Starts j t (ok true) v h = dispatched (around.permit first offset index)
      where
        dispatched :
            (permit : Bool)
            → Starts
                (λ db. true ≡ true → LockedFor redis j.id worker.worker_id t db)
                (some j)
                (dispatch p settings worker around first offset queue_name claimed defs j index
                  fetched permit)
        dispatched false = Triple-bind _ _ _ (Triple-any _) (λ _. Triple-fail _ (λ _ _. tt))
        dispatched true = record {
          at = λ w locked _. record {
            j = j;
            timeout = t;
            defined = refl;
            valid = v;
            positive = h;
            locked = locked refl;
          };
        }

    timeout-Starts :
        (j : Job codec) (timeout : Option ℤ)
        → lock_timeout_ms p settings j ≡ timeout
        → Starts
            (λ _. Unit {0})
            (some j)
            (on_timeout p settings worker around first offset queue_name claimed defs j index
              fetched timeout)
    timeout-Starts j none v = Triple-bind _ _ _ (Triple-any _) (λ _. Triple-fail _ (λ _ _. tt))
    timeout-Starts j (some t) v =
        Triple-if (leb_ℤ t (pos 0)) _ _
          (λ _. Triple-bind _ _ _ (Triple-any _) (λ _. Triple-fail _ (λ _ _. tt)))
          (λ h.
            Triple-bind _ (attempt (refresh_job_lock_timeout p j.id worker.worker_id t)) _
              (Triple-attempt _ (refresh-LockedFor j.id worker.worker_id t))
              (λ res. refreshed-Starts j t res v h))

    definition-Starts :
        (job_id : String) (d : Option (Job codec))
        → Starts
            (λ _. Unit {0})
            d
            (on_definition p settings worker around first offset queue_name claimed defs job_id d
              index fetched)
    definition-Starts job_id none =
        Triple-bind _ _ _ (Triple-any _) (λ _. Triple-pure _ (λ _ _ e. not_next fetched e))
    definition-Starts job_id (some j) = timeout-Starts j (lock_timeout_ms p settings j) refl

    job-Starts :
        (count : ℕ) (job_id : String)
        → Starts
            (λ _. Unit {0})
            (def_at defs index)
            (poll_job p settings worker around first offset queue_name claimed defs count job_id
              index fetched)
    unfolding poll_job
    job-Starts count job_id =
        Triple-if (leb count fetched || around.shutdown first offset (some index)) _ _
          (λ _. Triple-bind _ _ _ (Triple-any _) (λ _. Triple-pure _ (λ _ _ e. cc)))
          (λ _. definition-Starts job_id (def_at defs index))

    -- Where a turn of the loop over the claimed jobs starts a job, the job has a definition whose
    -- lock timeout is a positive i64, and the worker owns the job's lock, which lasts for that
    -- timeout, whatever the data were and whichever calls failed.
    pub poll_job-IsReady :
        (count : ℕ) (job_id : String) (w : World redis)
        → (poll_job p settings worker around first offset queue_name claimed defs count job_id index
            fetched w).0
          ≡ ok (go_on (suc fetched))
        → IsReady
            (def_at defs index)
            (poll_job p settings worker around first offset queue_name claimed defs count job_id
              index fetched w).1.db
    poll_job-IsReady count job_id w e = Triple-returned (job-Starts count job_id) w tt e refl
