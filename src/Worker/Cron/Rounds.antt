-- ===== src/Worker/Cron/Rounds.antt =====
-- What a round of `cron_loop` of rrq-rs/orchestrator/src/worker.rs does to the jobs' times.
use rrq.Prelude.{
  ℕ, suc, ◌≡◌, ◌∙◌, Bool, true, false, Option, none, some, List, [], ◌∷◌, ◌++◌, map, length, String,
  refl, ap, if◌then◌else◌,
}
use rrq.Worker.Cron.{
  CronEnvironment, CronJob, update_at, schedule_next, due, push_due, collect_due, reschedule,
  DueCronJob, enqueue_due, enqueue_all, cron_round, options_of, unlocked, should_enqueue,
}
use rrq.Redis.Calls.{World, ok, pure, attempt, ◌>>=◌, ◌>>◌}
use rrq.Platform.{Platform, RrqSettings}
use rrq.Client.{ClientEnvironment, enqueue, get_lock_ttl}
use mathlib.Core.List.{append_assoc}

update_at-length :
    {A : Type 0} (f : A → A) (pre : List A) (x : A) (xs : List A)
    → update_at (length pre) f (pre ++ x ∷ xs) ≡ pre ++ f x ∷ xs
update_at-length f [] x xs = refl
update_at-length f (y ∷ pre) x xs = ap (λ l. y ∷ l) (update_at-length f pre x xs)

length_snoc : {A : Type 0} (xs : List A) (x : A) → length (xs ++ x ∷ []) ≡ suc (length xs)
length_snoc [] x = refl
length_snoc (y ∷ xs) x = ap suc (length_snoc xs x)

module _ {Params Time : Type 0} (cron : CronEnvironment Time) where
  -- What becomes of a job by what `due` has said of it.
  unfoldable pub after_due : Time → CronJob Params Time × Option Bool → CronJob Params Time
  after_due now (job, some true) = (schedule_next cron job now).0
  after_due now (job, some false) = job
  after_due now (job, none) = job

  abbrev pub rescheduled : Time → CronJob Params Time → CronJob Params Time
  rescheduled now job = after_due now (due cron job now)

  pub reschedule-map :
      (now : Time) (pre jobs : List (CronJob Params Time))
      → reschedule cron now
          (collect_due cron (length pre) now jobs).1
          (pre ++ (collect_due cron (length pre) now jobs).0)
        ≡ pre ++ map (rescheduled now) jobs
  unfolding reschedule collect_due after_due
  reschedule-map now pre [] = refl
  reschedule-map now pre (job ∷ jobs) =
      by_due (due cron job now) (λ y. placed y (reschedule-map now (pre ++ y ∷ []) jobs))
    where
      Goes : CronJob Params Time → Type 0
      Goes y =
          reschedule cron now (collect_due cron (suc (length pre)) now jobs).1
            (pre ++ y ∷ (collect_due cron (suc (length pre)) now jobs).0)
          ≡ pre ++ y ∷ map (rescheduled now) jobs

      placed :
          (y : CronJob Params Time)
          → reschedule cron now
              (collect_due cron (length (pre ++ y ∷ [])) now jobs).1
              ((pre ++ y ∷ []) ++ (collect_due cron (length (pre ++ y ∷ [])) now jobs).0)
            ≡ (pre ++ y ∷ []) ++ map (rescheduled now) jobs
          → Goes y
      placed y h = rw (length_snoc pre y, append_assoc, append_assoc) at h

      by_due :
          (d : CronJob Params Time × Option Bool)
          → ((y : CronJob Params Time) → Goes y)
          → reschedule cron now
              (push_due cron (length pre) d (collect_due cron (suc (length pre)) now jobs).1)
              (pre ++ d.0 ∷ (collect_due cron (suc (length pre)) now jobs).0)
            ≡ pre ++ after_due now d ∷ map (rescheduled now) jobs
      by_due (job', some true) again =
          ap (reschedule cron now (collect_due cron (suc (length pre)) now jobs).1) (
            update_at-length (λ (j : CronJob Params Time). (schedule_next cron j now).0) pre job'
              (collect_due cron (suc (length pre)) now jobs).0)
          ∙ again (schedule_next cron job' now).0
      by_due (job', some false) again = again job'
      by_due (job', none) again = again job'

module _ (p : Platform) (env : ClientEnvironment p) (settings : RrqSettings p.redis.floats.F64)
    (cron : CronEnvironment p.codec.Time) where
  open p use {redis, codec}
  open codec use {Params, Time}

  due-ok :
      (d : DueCronJob Params) (new_id : String) (now : Time) (w : World redis)
      → (enqueue_due p env settings cron d new_id now w).0 ≡ ok tt
  unfolding enqueue_due
  due-ok d new_id now w = wanted d.unique_key w
    where
      sent :
          (b : Bool) (w : World redis)
          → ((if b
                then (do
                  attempt (
                      enqueue p env settings d.function_name d.params
                        (options_of p env settings cron d)
                        new_id
                        now)
                  pure tt)
                else pure tt)
              w).0
            ≡ ok tt
      sent true w = refl
      sent false w = refl

      wanted :
          (key : Option String) (w : World redis)
          → ((should_enqueue p env settings cron key >>= λ b.
                if b
                then (do
                  attempt (
                      enqueue p env settings d.function_name d.params
                        (options_of p env settings cron d)
                        new_id
                        now)
                  pure tt)
                else pure tt)
              w).0
            ≡ ok tt
      wanted none w = refl
      wanted (some key) w =
          sent (unlocked p env settings cron (get_lock_ttl p env settings key w).0)
            (get_lock_ttl p env settings key w).1

  module _ (shutdown : ℕ → Bool) (fresh : ℕ → String) (clock : ℕ → Time)
      (quiet : (n : ℕ) → shutdown n ≡ false) where
    all-ok :
        (ds : List (DueCronJob Params)) (w : World redis)
        → (enqueue_all p env settings cron shutdown fresh clock ds w).0 ≡ ok true
    unfolding enqueue_all
    all-ok [] w = refl
    all-ok (d ∷ ds) w =
        rw (quiet d.index, due-ok d (fresh d.index) (clock d.index) w, enqueue_all) (all-ok ds _)

    -- Unless the worker is shut down in it, a round comes to its end whichever calls of Redis fail,
    -- and treats each job on its own: a job that is due is scheduled anew from the round's time,
    -- whether it has been enqueued or not, and any other job is as `due` leaves it.
    pub cron_round-map :
        (now : Time) (jobs : List (CronJob Params Time)) (w : World redis)
        → (cron_round p env settings cron shutdown fresh clock now jobs w).0
          ≡ ok (some (map (rescheduled cron now) jobs))
    unfolding cron_round
    cron_round-map now jobs w =
        rw (all-ok (collect_due cron 0 now jobs).1 w, cron_round)
          (ap (λ l. ok (some l)) (reschedule-map cron now [] jobs))
