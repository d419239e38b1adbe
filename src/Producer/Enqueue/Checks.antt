-- ===== src/Producer/Enqueue/Checks.antt =====
-- The checks of `enqueue`, and what two calls with one idempotency key return:
-- rrq-rs/producer/src/lib.rs.
use rrq.Prelude.{
  ℕ, zero, suc, String, Bool, true, false, ◌&&◌, not, Option, none, some, List, [], ◌∷◌, ◌≡◌, ◌==◌,
  refl, inl, inr, arith, unwrap_or, if◌then◌else◌, Bool-cases, Option-cases,
}
use rrq.Prelude.Int.{ℤ, pos, negsuc, leb_ℤ}
use rrq.Keys.{idempotency, job, format_queue_key}
use rrq.Redis.Calls.{World, ok, err, invalid, call}
use rrq.Platform.{Platform}
use rrq.Producer.Scripts.{enqueue_script}
use rrq.Producer.Scripts.Once.{IsText, enqueue-once}
use rrq.Producer.Enqueue.{
  Environment, ProducerConfig, EnqueueOptions, enqueue, answered, timeout_of, described,
  idempotency_ttl,
}

-- The message of the first check that fails, of a list of checks in their order.
abbrev pub first_of : List (Bool × String) → Option String
first_of [] = none
first_of ((fails, message) ∷ checks) = if fails then some message else first_of checks

module _ (p : Platform) (env : Environment p) (config : ProducerConfig) where
  open p use {redis, codec}
  open codec use {Params, Time}

  -- What the call accepts.
  abbrev pub key_accepted : Option String → ℤ → Bool
  key_accepted none ttl = true
  key_accepted (some k) ttl = not (env.trim k == "") && not (leb_ℤ ttl (pos 0))

  abbrev pub accepts : String → EnqueueOptions codec → Bool
  accepts function_name options =
      not (env.trim function_name == "")
      && not (env.trim (unwrap_or options.queue_name config.queue_name) == "")
      && not (leb_ℤ (timeout_of p env config options) (pos 0))
      && key_accepted options.idempotency_key
          (unwrap_or options.idempotency_ttl_seconds config.idempotency_ttl_seconds)

  abbrev key_checks : Option String → ℤ → List (Bool × String)
  key_checks none ttl = []
  key_checks (some k) ttl =
      (env.trim k == "", "idempotency_key cannot be empty")
      ∷ (leb_ℤ ttl (pos 0), "idempotency_ttl_seconds must be positive")
      ∷ []

  -- What a call is refused for, and with which message.
  abbrev pub checks_of : String → EnqueueOptions codec → List (Bool × String)
  checks_of function_name options =
      (env.trim function_name == "", "function_name cannot be empty")
      ∷ (
        env.trim (unwrap_or options.queue_name config.queue_name) == "",
        "queue_name cannot be empty",
      )
      ∷ (leb_ℤ (timeout_of p env config options) (pos 0), "job_timeout_seconds must be positive")
      ∷ key_checks options.idempotency_key
          (unwrap_or options.idempotency_ttl_seconds config.idempotency_ttl_seconds)

  -- A call whose names are blank, or whose timeout or key TTL is not positive, is an error with the
  -- message of the first of these checks that fails, and sends nothing: Redis and the faults to come
  -- are as before.
  pub enqueue-refused :
      (f : String) (params : Params) (options : EnqueueOptions codec) (id : String) (now : Time)
      (w : World redis)
      → accepts f options ≡ false
      → (m : String) × (first_of (checks_of f options) ≡ some m)
        × (enqueue p env config f params options id now w ≡ (err (invalid m), w))
  unfolding enqueue
  enqueue-refused f params options id now w h = elim (Bool-cases (env.trim f == "")) [
    | inl e ↦ ("function_name cannot be empty", rw (e) refl, rw (e, enqueue) refl)
    | inr e ↦ elim (Bool-cases (env.trim (unwrap_or options.queue_name config.queue_name) == "")) [
      | inl e2 ↦ ("queue_name cannot be empty", rw (e, e2) refl, rw (e, e2, enqueue) refl)
      | inr e2 ↦ elim (Bool-cases (leb_ℤ (timeout_of p env config options) (pos 0))) [
        | inl e3 ↦ (
          "job_timeout_seconds must be positive",
          rw (e, e2, e3) refl,
          rw (e, e2, e3, enqueue) refl,
        )
        | inr e3 ↦ elim (Option-cases options.idempotency_key) [
          | inl none_given ↦ (let h' = rw (e, e2, e3, none_given, accepts) at h in grind arith)
          | inr (k, given) ↦ elim (Bool-cases (env.trim k == "")) [
            | inl e4 ↦ (
              "idempotency_key cannot be empty",
              rw (e, e2, e3, given, e4) refl,
              rw (e, e2, e3, given, e4, enqueue) refl,
            )
            | inr e4 ↦
                elim (Bool-cases (
                  leb_ℤ (unwrap_or options.idempotency_ttl_seconds config.idempotency_ttl_seconds)
                    (pos 0))) [
                      | inl e5 ↦ (
                        "idempotency_ttl_seconds must be positive",
                        rw (e, e2, e3, given, e4, e5) refl,
                        rw (e, e2, e3, given, e4, e5, enqueue) refl,
                      )
                      | inr e5 ↦
                          (let h' = rw (e, e2, e3, given, e4, e5, accepts, key_accepted) at h in
                            grind arith)
                    ]
          ]
        ]
      ]
    ]
  ]

  -- What an accepted call with an idempotency key sends, and how it reads the answer.
  abbrev sent :
      String
      → Params
      → EnqueueOptions codec
      → String
      → Time
      → String
      → redis.Db
      → (ℤ × String) × redis.Db
  sent f params options id now k =
      let enqueue_time = unwrap_or options.enqueue_time now in
      let scheduled_time = unwrap_or options.scheduled_time enqueue_time in
      let queue_name = unwrap_or options.queue_name config.queue_name in
      let job_id = unwrap_or options.job_id id in
      enqueue_script redis (job job_id) (format_queue_key queue_name) (some (idempotency k))
        (described p env config f params options job_id queue_name (timeout_of p env config options)
          enqueue_time scheduled_time)
        (p.millis scheduled_time)
        (idempotency_ttl (unwrap_or options.idempotency_ttl_seconds config.idempotency_ttl_seconds)
          (env.milliseconds_since scheduled_time enqueue_time))

  enqueue-accepted :
      (f : String) (params : Params) (options : EnqueueOptions codec) (id : String) (now : Time)
      (k : String) (w : World redis)
      → options.idempotency_key ≡ some k
      → accepts f options ≡ true
      → w.faults ≡ []
      → enqueue p env config f params options id now w
        ≡ answered p env config
            (sent f params options id now k w.db).0
            (record w { db = (sent f params options id now k w.db).1; faults = [] })
  unfolding enqueue call
  enqueue-accepted f params options id now k w given h calm =
      let h' = rw (given, accepts, key_accepted) at h in
      let e : (env.trim f == "") ≡ false = grind arith in
      let e2 : (env.trim (unwrap_or options.queue_name config.queue_name) == "") ≡ false =
        grind arith in
      let e3 : leb_ℤ (timeout_of p env config options) (pos 0) ≡ false = grind arith in
      let e4 : (env.trim k == "") ≡ false = grind arith in
      let e5 : leb_ℤ (unwrap_or options.idempotency_ttl_seconds config.idempotency_ttl_seconds)
            (pos 0)
          ≡ false =
        grind arith in
      rw (e, e2, e3, given, e4, e5, calm, enqueue) refl

  answered-ok :
      (answer : ℤ × String) (id : String) (w : World redis)
      → (answered p env config answer w).0 ≡ ok id
      → (n : ℕ) × (answer ≡ (pos n, id)) × (answered p env config answer w ≡ (ok id, w))
  answered-ok (pos zero, i) id w h = (0, grind arith, grind arith)
  answered-ok (pos (suc zero), i) id w h = (1, grind arith, grind arith)
  answered-ok (pos (suc (suc n)), i) id w h = grind arith
  answered-ok (negsuc zero, i) id w h = grind arith
  answered-ok (negsuc (suc n), i) id w h = grind arith

  sent-twice :
      (f : String) (params : Params) (options : EnqueueOptions codec) (new_id : String) (now : Time)
      (f' : String) (params' : Params) (options' : EnqueueOptions codec) (new_id' : String)
      (now' : Time) (k id : String) (n : ℕ) (db : redis.Db)
      → IsText redis (idempotency k) db
      → (sent f params options new_id now k db).0 ≡ (pos n, id)
      → sent f' params' options' new_id' now' k (sent f params options new_id now k db).1
        ≡ ((pos 0, id), (sent f params options new_id now k db).1)
  unfolding format_queue_key
  sent-twice f params options new_id now f' params' options' new_id' now' k id n db t answer =
      enqueue-once redis _ k id n _ _ _ db _ _ _ _ t answer

  -- Once `enqueue` has returned a job for an idempotency key, it returns that job for every further
  -- accepted call with the key, whatever the function, the parameters and the queue, and changes
  -- nothing. The calls of Redis must be served, and the key must hold a text, if anything.
  pub enqueue-twice :
      (f : String) (params : Params) (options : EnqueueOptions codec) (new_id : String) (now : Time)
      (f' : String) (params' : Params) (options' : EnqueueOptions codec) (new_id' : String)
      (now' : Time) (k id : String) (w : World redis)
      → options.idempotency_key ≡ some k
      → options'.idempotency_key ≡ some k
      → accepts f options ≡ true
      → accepts f' options' ≡ true
      → w.faults ≡ []
      → IsText redis (idempotency k) w.db
      → (enqueue p env config f params options new_id now w).0 ≡ ok id
      → enqueue p env config f' params' options' new_id' now'
          (enqueue p env config f params options new_id now w).1
        ≡ (ok id, (enqueue p env config f params options new_id now w).1)
  enqueue-twice f params options new_id now f' params' options' new_id' now' k id w given given' h
        h' calm t first =
      let db = (sent f params options new_id now k w.db).1 in
      let after : World redis = record w { db = db; faults = [] } in
      let ran = enqueue-accepted f params options new_id now k w given h calm in
      let (n, answer, back) =
        answered-ok (sent f params options new_id now k w.db).0 id after (rw (ran) at first) in
      let again = enqueue-accepted f' params' options' new_id' now' k after given' h' refl in
      rw
        (
          ran,
          back,
          again,
          sent-twice f params options new_id now f' params' options' new_id' now' k id n w.db t
              answer,
        )
        refl
