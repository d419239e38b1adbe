-- ===== src/Runner/Execute/Answers.antt =====
-- The ids of the outcomes that a runner sends: rrq-rs/runner/src/registry.rs and
-- rrq-rs/runner/src/runtime.rs.
use rrq.Prelude.{String, Bool, Option, none, some, ◌≡◌, ◌⊎◌, inl, inr, refl, or_else, Bool-cases}
use rrq.Platform.{Platform}
use rrq.Protocol.Outcome.{handler_not_found, timeout}
use rrq.Runner.Execute.{
  Race, in_time, too_late, no_duration, Request, Answer, Registry, Handler, get, handled,
  execute_with, raced, by_deadline, execute_with_deadline,
}

-- The outcome has the job's ids or leaves them out.
abbrev pub Honest : (p : Platform) → String → String → Answer p → Type 0
Honest p job_id request_id o =
    ((o.job_id ≡ none) ⊎ (o.job_id ≡ some job_id))
    × ((o.request_id ≡ none) ⊎ (o.request_id ≡ some request_id))

or_else-some :
    (o : Option String) (s : String) → ((o ≡ none) ⊎ (o ≡ some s)) → or_else o (some s) ≡ some s
or_else-some o s (inl e) = rw (e) refl
or_else-some o s (inr e) = rw (e) refl

module _ (p : Platform) where
  open p.codec use {Time}

  -- The outcome names the job and the request.
  abbrev Names : String → String → Answer p → Type 0
  Names job_id request_id o = (o.job_id ≡ some job_id) × (o.request_id ≡ some request_id)

  -- The handler of the request, if it has one, gives no ids of another request.
  abbrev pub Honestly : Registry p → Request p → Type 0
  Honestly registry request =
      (f : Handler p)
      → get p registry request.function_name ≡ some f
      → Honest p request.job_id request.request_id (f request)

  handled-Honest :
      (h : Option (Handler p)) (request : Request p)
      → ((f : Handler p) → h ≡ some f → Honest p request.job_id request.request_id (f request))
      → Honest p request.job_id request.request_id (handled p h request)
  unfolding handler_not_found
  handled-Honest none request h = (inr refl, inr refl)
  handled-Honest (some f) request h = h f refl

  execute_with-Names :
      (registry : Registry p) (request : Request p)
      → Honestly registry request
      → Names request.job_id request.request_id (execute_with p registry request)
  unfolding execute_with
  execute_with-Names registry request h =
      let (a, b) = handled-Honest (get p registry request.function_name) request h in
      (or_else-some _ _ a, or_else-some _ _ b)

  raced-Names :
      (registry : Registry p) (request : Request p) (race : Race)
      → Honestly registry request
      → Names request.job_id request.request_id (raced p registry request race)
  unfolding timeout
  raced-Names registry request in_time h = execute_with-Names registry request h
  raced-Names registry request too_late h = (refl, refl)
  raced-Names registry request no_duration h = (refl, refl)

  by_deadline-Names :
      (has_passed : Time → Bool) (registry : Registry p) (request : Request p) (race : Race)
      (d : Option Time)
      → Honestly registry request
      → Names request.job_id request.request_id (by_deadline p has_passed registry request race d)
  unfolding timeout
  by_deadline-Names has_passed registry request race none h = execute_with-Names registry request h
  by_deadline-Names has_passed registry request race (some d) h = elim (Bool-cases (has_passed d)) [
    | inl e ↦ rw (e) (refl, refl)
    | inr e ↦ rw (e) (raced-Names registry request race h)
  ]

  -- Every outcome names the request and its job, also where no handler is registered, the deadline
  -- has passed or the handler is too slow, if the handler gives no ids of another request.
  pub execute_with_deadline-names :
      (has_passed : Time → Bool) (registry : Registry p) (request : Request p) (race : Race)
      → Honestly registry request
      → ((execute_with_deadline p has_passed registry request race).job_id ≡ some request.job_id)
        × ((execute_with_deadline p has_passed registry request race).request_id
            ≡ some request.request_id)
  unfolding execute_with_deadline
  execute_with_deadline-names has_passed registry request race h =
      by_deadline-Names has_passed registry request race request.context.deadline h
