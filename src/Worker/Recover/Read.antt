-- ===== src/Worker/Recover/Read.antt =====
-- What `get_job_definition` of rrq-rs/orchestrator/src/store.rs tells of a job, under any sequence of
-- failing calls.
use rrq.Prelude.{
  String, false, Option, none, some, ◌≡◌, refl, inl, inr, arith, eq_iff, unwrap_or, Option-cases,
  Bool-cases, sym, ap, ◌∙◌,
}
use rrq.Prelude.Int.{ℤ}
use rrq.Keys.{job}
use rrq.Redis.Triples.{Triple, Triple-pure, Triple-fail, Triple-call, Triple-bind}
use rrq.Job.{Job, JobStatus, as_str, parse, parse_job_map, and_then}
use rrq.Platform.{Platform, RrqSettings}
use rrq.Tracking.{NoLoss, status}
use rrq.Store.{definition, or_invalid, get_job_definition}

parse-back : (s : String) (st : JobStatus) → parse s ≡ some st → s ≡ as_str st
unfolding parse as_str
parse-back s JobStatus.pending h = grind (arith, (eq_iff s "PENDING").0)
parse-back s JobStatus.active h = grind (arith, (eq_iff s "ACTIVE").0)
parse-back s JobStatus.completed h = grind (arith, (eq_iff s "COMPLETED").0)
parse-back s JobStatus.failed h = grind (arith, (eq_iff s "FAILED").0)
parse-back s JobStatus.retrying h = grind (arith, (eq_iff s "RETRYING").0)
parse-back s JobStatus.cancelled h = grind (arith, (eq_iff s "CANCELLED").0)

module _ (p : Platform) (settings : RrqSettings p.redis.floats.F64) where
  open p use {redis, codec}
  open redis use {Db, hget, exists}

  -- The job as it was read.
  pub record Found (j : Job codec) (db : Db) : Type 0 where
    pub no_loss : NoLoss redis db
    pub same_status : status redis db j.id ≡ some (as_str j.status)

  -- What is known of a job that was read: its hash is gone, or the job names itself.
  abbrev pub Known : String → Option (Job codec) → Db → Type 0
  Known id none db = NoLoss redis db × (exists db (job id) ≡ false)
  Known id (some j) db = (j.id ≡ id) × Found j db

  -- The job's hash names the job, as every enqueue writes it.
  abbrev pub NamesItself : String → Db → Type 0
  NamesItself id db = (v : String) → hget db (job id) "id" ≡ some v → v ≡ id

  abbrev id_of : Option (Job codec) → String
  id_of none = ""
  id_of (some j) = j.id

  abbrev status_of : Option (Job codec) → Option JobStatus
  status_of none = none
  status_of (some j) = some j.status

  parsed :
      (raw : String → Option String) (id : String) (max : ℤ) (j : Job codec)
      → parse_job_map codec raw id max ≡ some j
      → (j.id ≡ unwrap_or (raw "id") id)
        × ((s : String) × (raw "status" ≡ some s) × (parse s ≡ some j.status))
  unfolding parse_job_map
  parsed raw id max j h = elim (Option-cases (raw "status")) [
    | inl e ↦ (let h' = rw (e, parse_job_map) at h in grind arith)
    | inr (s, e) ↦ elim (Option-cases (parse s)) [
      | inl e2 ↦ (let h' = rw (e, e2, parse_job_map) at h in grind arith)
      | inr (st, e2) ↦
          elim (Option-cases (and_then (raw "enqueue_time") codec.parse_from_rfc3339)) [
            | inl e3 ↦ (let h' = rw (e, e2, e3, parse_job_map) at h in grind arith)
            | inr (t, e3) ↦
                (let h' = rw (e, e2, e3, parse_job_map) at h in
                  let named = ap id_of h' in
                  let stated = ap status_of h' in (sym named, (s, e, e2 ∙ stated)))
          ]
    ]
  ]

  parsed-Known :
      (id : String) (max : ℤ) (db : Db) (j : Job codec)
      → NoLoss redis db
      → NamesItself id db
      → parse_job_map codec (hget db (job id)) id max ≡ some j
      → Known id (some j) db
  parsed-Known id max db j n names h =
      let (named, (s, there, read)) = parsed (hget db (job id)) id max j h in
      let same : j.id ≡ id = named ∙ own (hget db (job id) "id") names in
      (
        same,
        record {
          no_loss = n;
          same_status =
              ap (λ x. hget db (job x) "status") same
              ∙ there
              ∙ ap some (parse-back s j.status read);
        },
      )
    where
      own : (o : Option String) → ((v : String) → o ≡ some v → v ≡ id) → unwrap_or o id ≡ id
      own none f = refl
      own (some v) f = f v refl

  -- The lookup's answer, which is an error where the hash is no job.
  abbrev Looked : String → ℤ → Option (Option (Job codec)) → Db → Type 0
  Looked id max none db = NoLoss redis db
  Looked id max (some found) db = Known id found db

  looked :
      (id : String) (max : ℤ) (db : Db)
      → NoLoss redis db × NamesItself id db
      → Looked id max (definition p id max db) db
  looked id max db (n, names) = elim (Bool-cases (exists db (job id))) [
    | inl e ↦ elim (Option-cases (parse_job_map codec (hget db (job id)) id max)) [
      | inl e2 ↦ rw (e, e2) n
      | inr (j, e2) ↦ rw (e, e2) (parsed-Known id max db j n names e2)
    ]
    | inr e ↦ rw (e) (n, e)
  ]

  pub reading :
      (id : String)
      → Triple
          (λ db. NoLoss redis db × NamesItself id db)
          (get_job_definition p id settings.default_max_retries)
          (Known id)
          (NoLoss redis)
  unfolding get_job_definition
  reading id =
      Triple-bind (Looked id settings.default_max_retries) _ _
        (Triple-call _ (looked id settings.default_max_retries) (λ db h. h.0) (λ db h. h.0)) valid
    where
      valid :
          (read : Option (Option (Job codec)))
          → Triple
              (Looked id settings.default_max_retries read)
              (or_invalid p read)
              (Known id)
              (NoLoss redis)
      valid none = Triple-fail _ (λ db n. n)
      valid (some found) = Triple-pure found (λ db k. k)
