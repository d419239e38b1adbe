-- ===== src/Worker/Cron/Times.antt =====
-- The times to which rrq-rs/config/src/cron.rs schedules a job.
use mathlib.Core.Bool.{true≢false}
use rrq.Prelude.{
  ℕ, suc, ◌+◌, List, [], ◌∷◌, ◌++◌, length, All, ap, arith, true, false, some, ◌≡◌, ◌∙◌, refl, sym,
  inl, inr, Bool-cases,
}
use rrq.Worker.Cron.{CronEnvironment, CronJob, schedule_next, due, collect_due, reschedule}

-- What is relied on of chrono and of the cron crate.
pub record IsCalendar {Time : Type 0} (cron : CronEnvironment Time) : Type 0 where
  pub start_mono :
      (a b : Time)
      → cron.at_or_after a b ≡ true
      → cron.at_or_after (cron.start_of_minute a) (cron.start_of_minute b) ≡ true
  pub next_later :
      (s : cron.Schedule) (t : Time) {next : Time}
      → cron.next_after s t ≡ some next
      → cron.at_or_after t next ≡ false

-- A time in the minute of another that has been reached.
abbrev pub InMinute : {Time : Type 0} → CronEnvironment Time → Time → Time → Type 0
InMinute cron next now =
    (cron.start_of_minute now ≡ cron.start_of_minute next) × (cron.at_or_after now next ≡ true)

module _ {Params Time : Type 0} (cron : CronEnvironment Time) where
  open cron use {from_str, next_after, start_of_minute, at_or_after}

  -- A job whose next time falls on the first second of a minute is due no more at the time from which
  -- it has been scheduled.
  pub schedule_next-due :
      IsCalendar cron
      → (job : CronJob Params Time) (now : Time) {s : cron.Schedule} {next : Time}
      → from_str job.schedule ≡ some s
      → next_after s (start_of_minute now) ≡ some next
      → start_of_minute next ≡ next
      → due cron (schedule_next cron job now).0 now
        ≡ (record job { next_run_time = some next }, some false)
  unfolding due schedule_next
  schedule_next-due cal job now {s} {next} e f g = rw (e, f, still_to_come) refl
    where
      still_to_come : at_or_after now next ≡ false
      still_to_come = elim (Bool-cases (at_or_after now next)) [
        | inl past ↦
            let early = rw g at (cal.start_mono now next past) in
            absurd (true≢false (sym early ∙ cal.next_later s (start_of_minute now) f))
        | inr later ↦ later
      ]

  -- How many jobs the rounds of the loop at these times find due, one after the other.
  abbrev pub dues : List Time → List (CronJob Params Time) → ℕ
  dues [] jobs = 0
  dues (now ∷ times) jobs =
      let collected = collect_due cron 0 now jobs in
      length collected.1 + dues times (reschedule cron now collected.1 collected.0)

  scheduled : CronJob Params Time → Time → CronJob Params Time
  scheduled job next = record job { next_run_time = some next }

  dues_again :
      (job : CronJob Params Time) {s : cron.Schedule} {next : Time} (now : Time) (times : List Time)
      → from_str job.schedule ≡ some s
      → next_after s (start_of_minute next) ≡ some next
      → InMinute cron next now
      → dues (now ∷ times) (scheduled job next ∷ []) ≡ suc (dues times (scheduled job next ∷ []))
  unfolding scheduled collect_due reschedule due schedule_next
  dues_again job {s} {next} now times e f (same, reached) = rw (reached, e, same, f) (omega arith)

  -- Where a time is a schedule's first run after the start of its minute, a job that is to run then
  -- is found due by every round of the loop in the rest of that minute, and by the first round after
  -- it once more: for one run of the schedule the job is due as often as there are such rounds.
  pub dues-again :
      (job : CronJob Params Time) {s : cron.Schedule} {next : Time} (times : List Time)
      (later : Time)
      → from_str job.schedule ≡ some s
      → next_after s (start_of_minute next) ≡ some next
      → All (InMinute cron next) times
      → at_or_after later next ≡ true
      → dues (times ++ later ∷ []) (record job { next_run_time = some next } ∷ [])
        ≡ suc (length times)
  unfolding scheduled collect_due due
  dues-again job {s} {next} [] later e f within after = rw (after) refl
  dues-again job {s} {next} (now ∷ times) later e f (here, within) after =
      dues_again job now (times ++ later ∷ []) e f here
      ∙ ap suc (dues-again job times later e f within after)
