-- ===== src/Config/Merge.antt =====
-- `deep_merge` of rrq-rs/config/src/config.rs, over serde_json's values. An object is the list of
-- its entries; a number is its text.
pub mod Lookup
pub mod Paths
use rrq.Prelude.{String, Bool, true, false, Option, none, some, ◌==◌, if◌then◌else◌}

mutual
  pub data Value : Type 0 where
    null : Value
    boolean : Bool → Value
    number : String → Value
    text : String → Value
    array : Values → Value
    object : Entries → Value

  pub data Values : Type 0 where
    nil : Values
    cons : Value → Values → Values

  pub data Entries : Type 0 where
    nothing : Entries
    entry : String → Value → Entries → Entries

-- `Map::get`, `Map::remove` and `Map::insert`.
unfoldable pub lookup : String → Entries → Option Value
lookup k nothing = none
lookup k (entry j v m) = if j == k then some v else lookup k m

unfoldable pub remove : String → Entries → Entries
remove k nothing = nothing
remove k (entry j v m) = if j == k then remove k m else entry j v (remove k m)

unfoldable pub insert : String → Value → Entries → Entries
insert k v nothing = entry k v nothing
insert k v (entry j w m) = if j == k then entry k v m else entry j w (insert k v m)

unfoldable mutual
  -- The base is an object: what follows by the overlay.
  pub deep_merge : Value → Value → Value
  deep_merge (object base) (object overlay) = object (merge_entries base overlay)
  deep_merge base overlay = overlay

  pub merge_entries : Entries → Entries → Entries
  merge_entries base nothing = base
  merge_entries base (entry key value rest) =
      let merged : Value = elim (lookup key base) [
        | none ↦ value
        | some existing ↦ deep_merge existing value
      ] in
      merge_entries (insert key merged (remove key base)) rest
