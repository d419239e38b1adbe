-- ===== src/Config/Load/Keys.antt =====
-- What rrq-rs/config/src/config.rs has at each key of the payload, by the file and the environment.
use rrq.Prelude.{String, some, ◌≡◌, ◌∙◌, refl, or_else}
use rrq.Config.Merge.{Value, object, Entries, lookup, deep_merge, merge_entries}
use rrq.Config.Merge.Lookup.{lookup-merge_entries}
use rrq.Config.Load.{
  unwrap_rrq, normalize_entries, normalize_toml_payload, Variables, env_overrides, load_payload,
}
use rrq.Config.Load.Normalized.{normalized_at, lookup-normalize_entries}
use rrq.Config.Load.Overrides.{override, lookup-env_overrides, merged_override, env_overrides-IsMap}

-- Where the file is a table, or its entry `rrq` is one, the payload has at each key what the
-- environment sets there, and otherwise what the normalization makes of the table.
pub load_payload-lookup :
    (var : Variables) (file : Value) (m : Entries)
    → unwrap_rrq file ≡ object m
    → (f : Entries) × (load_payload var file ≡ some (object f))
      × ((key : String) → lookup key f ≡ or_else (override var key) (normalized_at m key))
unfolding load_payload normalize_toml_payload deep_merge
load_payload-lookup var file m e = (
  merge_entries (normalize_entries m) (env_overrides var),
  rw e refl,
  λ key.
      lookup-merge_entries key (normalize_entries m) (env_overrides var) (env_overrides-IsMap var)
      ∙ rw (lookup-normalize_entries m key, lookup-env_overrides var key)
          (merged_override (normalized_at m key) var key),
)
