-- ===== src/Config/Load/Normalized.antt =====
-- What the normalization of rrq-rs/config/src/config.rs has at each key.
use rrq.Prelude.{
  String, ◌||◌, Option, none, some, ◌==◌, ◌≡◌, ◌∙◌, refl, arith, eq_iff, or_else, if◌then◌else◌,
  subst, Bool-cases, inl, inr,
}
use rrq.Config.Merge.{Value, Entries, nothing, entry, lookup, remove}
use rrq.Config.Merge.Lookup.{lookup-insert, lookup-remove}
use rrq.Config.Load.{update, normalize_name, normalize_table, move_routing, normalize_entries}

abbrev pub changed : (Value → Value) → Option Value → Option Value
changed f none = none
changed f (some v) = some (f v)

lookup-update :
    (k j : String) (f : Value → Value) (m : Entries)
    → lookup j (update k f m) ≡ (if k == j then changed f (lookup j m) else lookup j m)
unfolding lookup update
lookup-update k j f nothing = ground arith
lookup-update k j f (entry i v m) =
    ground (arith, eq_iff k j, eq_iff i k, eq_iff i j, lookup-update k j f m)

lookup-move_routing :
    (o : Option Value) (key : String) (m : Entries)
    → lookup "routing" m ≡ o
    → lookup key (move_routing o m) ≡ (
        if "routing" == key
        then none
        else if "runner_routes" == key
        then or_else o (lookup key m)
        else lookup key m)
lookup-move_routing none key m e = elim (Bool-cases ("routing" == key)) [
  | inl here ↦ rw here (subst (λ (k : String). lookup k m ≡ none) ((eq_iff "routing" key).0 here) e)
  | inr there ↦ rw there (ground arith)
]
lookup-move_routing (some r) key m e =
    lookup-insert "runner_routes" key r (remove "routing" m)
    ∙ rw (lookup-remove "routing" key m) (elim (Bool-cases ("routing" == key)) [
      | inl here ↦
          subst
            (λ (k : String).
              (if "runner_routes" == k
                then some r
                else if "routing" == k
                then none
                else lookup key m)
              ≡ (if "routing" == k
                  then none
                  else if "runner_routes" == k
                  then some r
                  else lookup key m))
            ((eq_iff "routing" key).0 here) refl
      | inr there ↦ rw there refl
    ])

-- The steps of the normalization at a key, and their result, of the two values that they read.
abbrev moved : String → Option Value → Option Value → Option Value
moved k routing v =
    if "routing" == k then none else if "runner_routes" == k then or_else routing v else v

abbrev named : String → Option Value → Option Value → Option Value
named k routing v =
    let kept = if "worker_concurrency" == k then none else moved k routing v in
    if "default_queue_name" == k then changed normalize_name kept else kept

abbrev pub normal : String → Option Value → Option Value → Option Value
normal k routing v =
    if "worker_concurrency" == k || "routing" == k
    then none
    else if "default_queue_name" == k
    then changed normalize_name v
    else if "runner_routes" == k
    then changed normalize_table (or_else routing v)
    else v

steps-normal :
    (k : String) (routing v : Option Value)
    → (if "runner_routes" == k
        then changed normalize_table (named k routing v)
        else named k routing v)
      ≡ normal k routing v
steps-normal k routing v = elim (Bool-cases ("worker_concurrency" == k)) [
  | inl w ↦ subst Same ((eq_iff "worker_concurrency" k).0 w) refl
  | inr no_w ↦ elim (Bool-cases ("routing" == k)) [
    | inl r ↦ subst Same ((eq_iff "routing" k).0 r) refl
    | inr no_r ↦ elim (Bool-cases ("default_queue_name" == k)) [
      | inl d ↦ subst Same ((eq_iff "default_queue_name" k).0 d) refl
      | inr no_d ↦ elim (Bool-cases ("runner_routes" == k)) [
        | inl t ↦ subst Same ((eq_iff "runner_routes" k).0 t) refl
        | inr no_t ↦ rw (no_w, no_r, no_d, no_t) refl
      ]
    ]
  ]
]
  where
    Same : String → Type 0
    Same i =
        (if "runner_routes" == i
          then changed normalize_table (named i routing v)
          else named i routing v)
        ≡ normal i routing v

-- What the normalization makes of the entries: `routing` becomes `runner_routes`, and the worker's
-- concurrency is dropped.
abbrev pub normalized_at : Entries → String → Option Value
normalized_at m key = normal key (lookup "routing" m) (lookup key m)

pub lookup-normalize_entries :
    (m : Entries) (key : String) → lookup key (normalize_entries m) ≡ normalized_at m key
unfolding normalize_entries
lookup-normalize_entries m key =
    let moved_m = move_routing (lookup "routing" m) m in
    let kept = remove "worker_concurrency" moved_m in
    lookup-update "runner_routes" key normalize_table
      (update "default_queue_name" normalize_name kept)
    ∙ rw
        (
          lookup-update "default_queue_name" key normalize_name kept,
          lookup-remove "worker_concurrency" key moved_m,
          lookup-move_routing (lookup "routing" m) key m refl,
        )
        (steps-normal key (lookup "routing" m) (lookup key m))
