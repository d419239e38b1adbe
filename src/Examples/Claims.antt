-- ===== src/Examples/Claims.antt =====
-- The theorems on claims at concrete data.
use rrq.Prelude.{some, [], ◌∷◌, ◌≡◌, refl, is_some, All, length, ◌≤◌, true, false}
use rrq.Prelude.Int.{pos}
use rrq.Keys.{job, queue, active, lock, key_eq}
use rrq.Redis.Log.{log_redis}
use rrq.Scripts.{
  lock_and_start_lua, claim_ready_lua, claim_candidate, claim_loop, start_claimed,
  candidate_timeout_ms,
}
use rrq.Scripts.Claim.{Claimed, claim_candidate-Claimed, claim_ready-Taken, held-refused}
use rrq.Examples.Data.{queued, running}

claim_candidate-Claimed_example :
    Claimed log_redis "q" "w" "a" queued
      (claim_candidate log_redis
        (queue "q")
        (active "w")
        "w"
        (pos 1000)
        (pos 0)
        "now"
        (pos 4)
        "a"
        queued).1
unfolding claim_candidate key_eq
claim_candidate-Claimed_example =
    claim_candidate-Claimed log_redis "q" "w" "a" (pos 1000) (pos 0) "now" (pos 4) queued claimed
  where
    claimed :
        (claim_candidate log_redis
          (queue "q")
          (active "w")
          "w"
          (pos 1000)
          (pos 0)
          "now"
          (pos 4)
          "a"
          queued).0
        ≡ true
    claimed = refl

held-refused_example :
    ((claim_candidate log_redis
        (queue "q")
        (active "v")
        "v"
        (pos 1000)
        (pos 0)
        "now"
        (pos 5)
        "a"
        running).0
      ≡ false)
    × (log_redis.get
          (claim_candidate log_redis
            (queue "q")
            (active "v")
            "v"
            (pos 1000)
            (pos 0)
            "now"
            (pos 5)
            "a"
            running).1
          (lock "a")
        ≡ some "w")
    × (lock_and_start_lua log_redis
          (lock "a")
          (queue "q")
          (job "a")
          (active "v")
          "v"
          (pos 1000)
          "a"
          "now"
          (pos 5)
          running
        ≡ ((pos 0, pos 0), running))
unfolding key_eq
held-refused_example =
    held-refused log_redis "q" "v" "a" "w" "now" (pos 1000) (pos 0) (pos 1000) (pos 5) running held
  where
    held : log_redis.get running (lock "a") ≡ some "w"
    held = refl

claim_ready-Taken_example :
    All
      (λ id.
        (log_redis.get
            (claim_ready_lua log_redis
              (queue "q")
              (active "w")
              "w"
              (pos 9)
              2
              (pos 1000)
              (pos 0)
              "now"
              (pos 4)
              queued).1
            (lock id)
          ≡ some "w")
        × (is_some (
              log_redis.zscore
                (claim_ready_lua log_redis
                  (queue "q")
                  (active "w")
                  "w"
                  (pos 9)
                  2
                  (pos 1000)
                  (pos 0)
                  "now"
                  (pos 4)
                  queued).1
                (active "w")
                id)
            ≡ true))
      (claim_ready_lua log_redis
        (queue "q")
        (active "w")
        "w"
        (pos 9)
        2
        (pos 1000)
        (pos 0)
        "now"
        (pos 4)
        queued).0
    × (length
          (claim_ready_lua log_redis
            (queue "q")
            (active "w")
            "w"
            (pos 9)
            2
            (pos 1000)
            (pos 0)
            "now"
            (pos 4)
            queued).0
        ≤ 2)
claim_ready-Taken_example =
    claim_ready-Taken log_redis "q" "w" "now" (pos 9) (pos 1000) (pos 0) (pos 4) 2 queued

-- The queued job is claimed.
claim_ready_test :
    (claim_ready_lua log_redis
      (queue "q")
      (active "w")
      "w"
      (pos 9)
      2
      (pos 1000)
      (pos 0)
      "now"
      (pos 4)
      queued).0
    ≡ "a" ∷ []
unfolding claim_ready_lua claim_loop claim_candidate start_claimed candidate_timeout_ms key_eq
claim_ready_test = refl
