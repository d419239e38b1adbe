-- ===== src/Config/Needed.antt =====
-- Which runners are started: rrq-rs/orchestrator/src/runner.rs.
use rrq.Prelude.{
  String, Bool, true, false, Option, none, some, List, [], ◌∷◌, ◌≡◌, ◌==◌, ◌||◌, not, refl, inl,
  inr, arith, if◌then◌else◌, is_some, Bool-cases, Option-cases, eq_refl, eq_iff, unwrap_or, sym,
  subst,
}
use rrq.Job.{Fields}
use rrq.Platform.{RrqSettings}
use rrq.Config.{routed, add_runner, routed_runners, effective_queues, determine_needed_runners}

abbrev pub member : String → List String → Bool
member x [] = false
member x (y ∷ ys) = x == y || member x ys

member-add_runner :
    (o : Option String) (x : String) (xs : List String)
    → member x xs ≡ true
    → member x (add_runner o xs) ≡ true
member-add_runner none x xs h = h
member-add_runner (some y) x xs h = rw (h) (ground arith)

-- What the first queue adds.
added :
    (o : Option String) (xs : List String) (d : Bool)
    → (o ≡ none → (not (is_some o) || d) ≡ true)
      × ((name : String) → o ≡ some name → member name (add_runner o xs) ≡ true)
added none xs d = (λ h. refl, λ name h. grind arith)
added (some y) xs d = (λ h. grind arith, λ name h. grind (arith, eq_refl))

-- A queue of the list has its runner among the needed ones, or the default runner is needed.
routed_runners-covers :
    (routes : Fields) (queues : List String) (q : String)
    → member q queues ≡ true
    → (routed routes q ≡ none → (routed_runners routes queues).1 ≡ true)
      × ((name : String)
          → routed routes q ≡ some name
          → member name (routed_runners routes queues).0 ≡ true)
unfolding routed_runners
routed_runners-covers routes [] q h = grind arith
routed_runners-covers routes (x ∷ queues) q h = elim (Bool-cases (q == x)) [
  | inl e ↦
      (let same : x ≡ q = sym ((eq_iff q x).0 e) in
        subst
          (λ z.
            (routed routes z ≡ none → (routed_runners routes (x ∷ queues)).1 ≡ true)
            × ((name : String)
                → routed routes z ≡ some name
                → member name (routed_runners routes (x ∷ queues)).0 ≡ true))
          same
          (added (routed routes x) (routed_runners routes queues).0
            (routed_runners routes queues).1))
  | inr e ↦
      (let (a, b) = routed_runners-covers routes queues q (grind arith) in
        (
          λ n. (let d = a n in rw (d) (ground arith)),
          λ name h.
              member-add_runner (routed routes x) name (routed_runners routes queues).0 (b name h),
        ))
]

member-cond :
    (x y : String) (b : Bool) (xs : List String)
    → member x xs ≡ true
    → member x (if b then y ∷ xs else xs) ≡ true
member-cond x y true xs h = rw (h) (ground arith)
member-cond x y false xs h = h

-- Every queue that the worker takes jobs from has its runner among the needed ones: the one that it
-- is routed to, and the default runner where there is none, if the default runner has a name.
pub determine_needed_runners-covers :
    {F64 : Type 0} (s : RrqSettings F64) (queues : List String) (q : String)
    → member q (effective_queues s.default_queue_name queues) ≡ true
    → (s.default_runner_name == "") ≡ false
    → member
        (unwrap_or (routed s.runner_routes q) s.default_runner_name)
        (determine_needed_runners s queues)
      ≡ true
unfolding determine_needed_runners
determine_needed_runners-covers s queues q h named =
    let found =
      routed_runners-covers s.runner_routes (effective_queues s.default_queue_name queues) q h in
    elim (Option-cases (routed s.runner_routes q)) [
      | inl e ↦ rw (e, found.0 e, named) (rw (eq_refl s.default_runner_name) refl)
      | inr (name, e) ↦ rw (e) (member-cond name s.default_runner_name _ _ (found.1 name e))
    ]
