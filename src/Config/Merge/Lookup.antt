-- ===== src/Config/Merge/Lookup.antt =====
-- What `deep_merge` of rrq-rs/config/src/config.rs leaves at a key.
use rrq.Prelude.{
  String, Option, none, some, ◌==◌, ◌≡◌, ◌∙◌, refl, sym, inl, inr, arith, eq_iff, Bool-cases, subst,
  ap, Option-cases, if◌then◌else◌,
}
use rrq.Config.Merge.{
  Value, Entries, nothing, entry, lookup, remove, insert, deep_merge, merge_entries,
}

pub lookup-insert :
    (k j : String) (v : Value) (m : Entries)
    → lookup j (insert k v m) ≡ (if k == j then some v else lookup j m)
unfolding lookup insert
lookup-insert k j v nothing = refl
lookup-insert k j v (entry i w m) =
    ground (arith, eq_iff k j, eq_iff i k, eq_iff i j, lookup-insert k j v m)

pub lookup-remove :
    (k j : String) (m : Entries) → lookup j (remove k m) ≡ (if k == j then none else lookup j m)
unfolding lookup remove
lookup-remove k j nothing = ground arith
lookup-remove k j (entry i w m) =
    ground (arith, eq_iff k j, eq_iff i k, eq_iff i j, lookup-remove k j m)

-- The value at a key of the result, by what the base and the overlay have there.
unfoldable pub merged_at : Option Value → Option Value → Option Value
merged_at b none = b
merged_at none (some v) = some v
merged_at (some b) (some v) = some (deep_merge b v)

-- Each key has one entry, as in a map.
unfoldable pub IsMap : Entries → Type 0
IsMap nothing = Unit
IsMap (entry k v m) = (lookup k m ≡ none) × IsMap m

abbrev merged_one : Option Value → Value → Value
merged_one none v = v
merged_one (some b) v = deep_merge b v

abbrev replaced : String → Value → Entries → Entries
replaced k v m = insert k v (remove k m)

lookup-replaced :
    (k j : String) (v : Value) (m : Entries)
    → lookup j (replaced k v m) ≡ (if k == j then some v else lookup j m)
lookup-replaced k j v m = ground (arith, lookup-insert k j v (remove k m), lookup-remove k j m)

merge_entries-entry :
    (k : String) (v : Value) (base m : Entries)
    → merge_entries base (entry k v m)
      ≡ merge_entries (replaced k (merged_one (lookup k base) v) base) m
unfolding merge_entries
merge_entries-entry k v base m = elim (Option-cases (lookup k base)) [
  | inl e ↦ rw e refl
  | inr (b, e) ↦ rw e refl
]

-- The merge of two maps, key by key: what only one has is kept, and what both have is merged.
pub lookup-merge_entries :
    (j : String) (base overlay : Entries)
    → IsMap overlay
    → lookup j (merge_entries base overlay) ≡ merged_at (lookup j base) (lookup j overlay)
unfolding merged_at lookup merge_entries IsMap
lookup-merge_entries j base nothing h = refl
lookup-merge_entries j base (entry k v m) h =
    ap (lookup j) (merge_entries-entry k v base m)
    ∙ lookup-merge_entries j (replaced k (merged_one (lookup k base) v) base) m h.1
    ∙ rw (lookup-replaced k j (merged_one (lookup k base) v) base) (elim (Bool-cases (k == j)) [
      | inl same ↦
          let e = (eq_iff k j).0 same in
          rw (same, subst (λ (i : String). lookup i m ≡ none) e h.0)
            (subst
              (λ (i : String).
                some (merged_one (lookup i base) v) ≡ merged_at (lookup j base) (some v))
              (sym e) (one (lookup j base)))
      | inr other ↦ rw other refl
    ])
  where
    one : (o : Option Value) → some (merged_one o v) ≡ merged_at o (some v)
    one none = refl
    one (some b) = refl
