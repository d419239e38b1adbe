-- ===== src/Tracking.antt =====
-- Where the system can find a job: in a queue, or in the set of the jobs that a worker runs, which
-- `recover_orphaned_jobs` of rrq-rs/orchestrator/src/worker.rs goes through.
pub mod Rules
pub mod Safe
use rrq.Prelude.{
  String, Bool, true, false, ◌||◌, Option, none, some, ◌≡◌, ◌==◌, ◌⊎◌, inl, inr, eq_iff, is_some,
  Bool-cases, ap, ◌∙◌, sym, subst,
}
use rrq.Keys.{job, queue, active}
use rrq.Redis.{Redis}

-- The statuses of a job that still has to run to an end.
abbrev pub live : Option String → Bool
live none = false
live (some s) = s == "PENDING" || s == "ACTIVE" || s == "RETRYING"

module _ (r : Redis) where
  open r use {Db, hget, zscore}

  -- The job is in a queue, or in a worker's active set.
  abbrev pub Held : Db → String → Type 0
  Held db id =
      ((q : String) × (is_some (zscore db (queue q) id) ≡ true))
      ⊎ ((w : String) × (is_some (zscore db (active w) id) ≡ true))

  abbrev pub status : Db → String → Option String
  status db id = hget db (job id) "status"

  -- No job that still has to run is out of reach.
  pub record NoLoss (db : Db) : Type 0 where
    pub held : (id : String) → live (status db id) ≡ true → Held db id

  -- The step touches no job but `id`: neither its status nor its places.
  pub record OnlyAbout (id : String) (db db' : Db) : Type 0 where
    pub same_status : (j : String) → (id == j) ≡ false → status db' j ≡ status db j
    pub same_queues :
        (j : String)
        → (id == j) ≡ false
        → (q : String) → zscore db' (queue q) j ≡ zscore db (queue q) j
    pub same_actives :
        (j : String)
        → (id == j) ≡ false
        → (w : String) → zscore db' (active w) j ≡ zscore db (active w) j

  Held-move :
      (id : String) (db db' : Db) (j : String)
      → OnlyAbout id db db'
      → (id == j) ≡ false
      → Held db j
      → Held db' j
  Held-move id db db' j about o (inl (q, h)) = inl (q, ap is_some (about.same_queues j o q) ∙ h)
  Held-move id db db' j about o (inr (w, h)) = inr (w, ap is_some (about.same_actives j o w) ∙ h)

  -- A step about one job keeps the invariant if it does so for that job.
  pub NoLoss-step :
      (id : String) (db db' : Db)
      → OnlyAbout id db db'
      → (live (status db' id) ≡ true → Held db' id)
      → NoLoss db
      → NoLoss db'
  NoLoss-step id db db' about here h = record {
    held = λ j alive. elim (Bool-cases (id == j)) [
      | inl same ↦
          let e : id ≡ j = (eq_iff id j).0 same in
          subst (Held db') e (here (subst (λ x. live (status db' x) ≡ true) (sym e) alive))
      | inr other ↦
          Held-move id db db' j about other
            (h.held j (ap live (sym (about.same_status j other)) ∙ alive))
    ];
  }
