-- ===== src/Config/Merge/Paths.antt =====
-- What `deep_merge` of rrq-rs/config/src/config.rs leaves at a path of keys.
use rrq.Prelude.{
  String, Option, none, some, List, [], ◌∷◌, ◌≡◌, ◌∙◌, ◌⊎◌, refl, sym, ap, inl, inr, Option-cases,
  Bool-cases, subst, ◌==◌,
}
use rrq.Job.{and_then}
use rrq.Config.Merge.{
  Value, null, boolean, number, text, array, object, Entries, nothing, entry, lookup, deep_merge,
  merge_entries,
}
use rrq.Config.Merge.Lookup.{IsMap, merged_at, lookup-merge_entries}

-- The value at a path.
unfoldable pub get_path : List String → Value → Option Value
get_path [] v = some v
get_path (k ∷ ks) (object m) = and_then (lookup k m) (get_path ks)
get_path (k ∷ ks) v = none

unfoldable pub IsObject : Value → Type 0
IsObject (object m) = Unit {0}
IsObject v = ⊥

-- Every object in it is a map.
unfoldable mutual
  pub IsTable : Value → Type 0
  IsTable (object m) = IsTables m
  IsTable v = Unit {0}

  pub IsTables : Entries → Type 0
  IsTables nothing = Unit {0}
  IsTables (entry k v m) = (lookup k m ≡ none) × IsTable v × IsTables m

IsTables-IsMap : (m : Entries) → IsTables m → IsMap m
unfolding IsMap IsTables
IsTables-IsMap nothing h = tt
IsTables-IsMap (entry k v m) (new, t, ts) = (new, IsTables-IsMap m ts)

abbrev unwrap : Value → Option Value → Value
unwrap d none = d
unwrap d (some u) = u

lookup-IsTable :
    (k : String) (m : Entries) {v : Value} → IsTables m → lookup k m ≡ some v → IsTable v
unfolding lookup IsTables
lookup-IsTable k nothing ts e = cc
lookup-IsTable k (entry j w m) (new, t, ts) e = elim (Bool-cases (j == k)) [
  | inl here ↦ let e' = rw here at e in let same : w ≡ _ = ap (unwrap w) e' in subst IsTable same t
  | inr there ↦ lookup-IsTable k m ts (rw there at e)
]

deep_merge-cases :
    (base overlay : Value)
    → ((b : Entries) × (o : Entries) × (base ≡ object b) × (overlay ≡ object o))
      ⊎ (deep_merge base overlay ≡ overlay)
unfolding deep_merge
deep_merge-cases (object b) (object o) = inl (b, o, refl, refl)
deep_merge-cases (object b) null = inr refl
deep_merge-cases (object b) (boolean x) = inr refl
deep_merge-cases (object b) (number x) = inr refl
deep_merge-cases (object b) (text x) = inr refl
deep_merge-cases (object b) (array x) = inr refl
deep_merge-cases null overlay = inr refl
deep_merge-cases (boolean x) overlay = inr refl
deep_merge-cases (number x) overlay = inr refl
deep_merge-cases (text x) overlay = inr refl
deep_merge-cases (array x) overlay = inr refl

-- The overlay has objects along the path, and no value at its end.
pub data IsUntouched : List String → Value → Type 0 where
  absent :
      (k : String) (ks : List String) (m : Entries)
      → lookup k m ≡ none
      → IsUntouched (k ∷ ks) (object m)
  below :
      (k : String) (ks : List String) (m : Entries) (v : Value)
      → lookup k m ≡ some v
      → IsUntouched ks v
      → IsUntouched (k ∷ ks) (object m)

get_path-IsUntouched :
    (path : List String) (v : Value) → IsUntouched path v → get_path path v ≡ none
unfolding get_path
get_path-IsUntouched _ _ (absent k ks m gone) = rw gone refl
get_path-IsUntouched _ _ (below k ks m u there h) = rw there (get_path-IsUntouched ks u h)

-- A base that is no object.
get_path-scalar :
    (path : List String) (base overlay : Value)
    → IsUntouched path overlay
    → deep_merge base overlay ≡ overlay
    → get_path path base ≡ none
    → get_path path (deep_merge base overlay) ≡ get_path path base
get_path-scalar path base overlay h same e = rw (same, e) (get_path-IsUntouched path overlay h)

get_path-through :
    (path : List String) (base overlay : Value)
    → ¬ IsObject base
    → IsUntouched path overlay
    → get_path path base ≡ none
unfolding get_path IsObject
get_path-through _ (object b) _ n h = absurd (n tt)
get_path-through _ null _ n (absent k ks m gone) = refl
get_path-through _ null _ n (below k ks m u there h) = refl
get_path-through _ (boolean x) _ n (absent k ks m gone) = refl
get_path-through _ (boolean x) _ n (below k ks m u there h) = refl
get_path-through _ (number x) _ n (absent k ks m gone) = refl
get_path-through _ (number x) _ n (below k ks m u there h) = refl
get_path-through _ (text x) _ n (absent k ks m gone) = refl
get_path-through _ (text x) _ n (below k ks m u there h) = refl
get_path-through _ (array x) _ n (absent k ks m gone) = refl
get_path-through _ (array x) _ n (below k ks m u there h) = refl

module _ (k : String) (ks : List String) (base overlay : Entries) where
  both_objects :
      {v : Value}
      → IsTables overlay
      → ((b u : Value) → IsTable u → get_path ks u ≡ some v → get_path ks (deep_merge b u) ≡ some v)
      → and_then (lookup k overlay) (get_path ks) ≡ some v
      → and_then (lookup k (merge_entries base overlay)) (get_path ks) ≡ some v
  unfolding merged_at
  both_objects ts ih e = elim (Option-cases (lookup k overlay)) [
    | inl gone ↦ (let e' = rw gone at e in cc)
    | inr (u, there) ↦
        rw (lookup-merge_entries k base overlay (IsTables-IsMap overlay ts), there)
          (elim (Option-cases (lookup k base)) [
            | inl fresh ↦ rw fresh (rw there at e)
            | inr (b, old) ↦ rw old (ih b u (lookup-IsTable k overlay ts there) (rw there at e))
          ])
  ]

-- A value of the overlay that is no object stands at its path in the result, whatever the base has.
pub get_path-deep_merge_overlay :
    (path : List String) (base overlay : Value) {v : Value}
    → IsTable overlay
    → get_path path overlay ≡ some v
    → ¬ IsObject v
    → get_path path (deep_merge base overlay) ≡ some v
unfolding get_path deep_merge IsObject IsTable
get_path-deep_merge_overlay [] base overlay {v} t e leaf = elim (deep_merge-cases base overlay) [
  | inl (b, o, eb, eo) ↦ absurd (leaf (subst IsObject (sym eo ∙ ap (unwrap null) e) tt))
  | inr same ↦ rw same e
]
get_path-deep_merge_overlay (k ∷ ks) base overlay {v} t e leaf =
    elim (deep_merge-cases base overlay) [
      | inl (b, o, eb, eo) ↦
          rw (eb, eo)
            (both_objects k ks b o (rw eo at t)
              (λ b' u t' e'. get_path-deep_merge_overlay ks b' u t' e' leaf) (rw eo at e))
      | inr same ↦ rw same e
    ]

-- Where the overlay has objects along a path and no value at its end, the result has there what the
-- base has.
pub get_path-deep_merge_base :
    (path : List String) (base overlay : Value)
    → IsTable overlay
    → IsUntouched path overlay
    → get_path path (deep_merge base overlay) ≡ get_path path base
unfolding get_path deep_merge IsTable IsTables IsObject merged_at
get_path-deep_merge_base _ (object b) _ t (absent k ks o gone) =
    rw (lookup-merge_entries k b o (IsTables-IsMap o t), gone)
      (elim (Option-cases (lookup k b)) [ inl e ↦ rw e refl | inr (u, e) ↦ rw e refl ])
get_path-deep_merge_base _ (object b) _ t (below k ks o u there h) =
    rw (lookup-merge_entries k b o (IsTables-IsMap o t), there)
      (elim (Option-cases (lookup k b)) [
        | inl e ↦ rw e (get_path-IsUntouched ks u h)
        | inr (v, e) ↦ rw e (get_path-deep_merge_base ks v u (lookup-IsTable k o t there) h)
      ])
get_path-deep_merge_base path null overlay t h =
    get_path-scalar path null overlay h refl (get_path-through path null overlay (λ x. x) h)
get_path-deep_merge_base path (boolean x) overlay t h =
    get_path-scalar path (boolean x) overlay h refl
      (get_path-through path (boolean x) overlay (λ x. x) h)
get_path-deep_merge_base path (number x) overlay t h =
    get_path-scalar path (number x) overlay h refl
      (get_path-through path (number x) overlay (λ x. x) h)
get_path-deep_merge_base path (text x) overlay t h =
    get_path-scalar path (text x) overlay h refl (get_path-through path (text x) overlay (λ x. x) h)
get_path-deep_merge_base path (array x) overlay t h =
    get_path-scalar path (array x) overlay h refl
      (get_path-through path (array x) overlay (λ x. x) h)
