-- ===== src/Examples/Payloads.antt =====
-- The theorems on the payload of the configuration at concrete data.
use rrq.Prelude.{◌≡◌, String, none, some, refl, or_else, ◌==◌, if◌then◌else◌}
use rrq.Config.Merge.{text, number, object, Entries, nothing, entry, lookup}
use rrq.Config.Load.{Variables, load_payload}
use rrq.Config.Load.Normalized.{normalized_at}
use rrq.Config.Load.Overrides.{override}
use rrq.Config.Load.Keys.{load_payload-lookup}

abbrev settings_table : Entries
settings_table = entry "redis_dsn" (text "redis://file") (
    entry "runners"
      (object (entry "python" (object (entry "pool_size" (number "4") nothing)) nothing)) nothing)

abbrev environment : Variables
environment name = if name == "RRQ_REDIS_DSN" then some "redis://environment" else none

load_payload-lookup_example :
    (f : Entries) × (load_payload environment (object (entry "rrq" (object settings_table) nothing))
      ≡ some (object f))
    × ((key : String)
        → lookup key f ≡ or_else (override environment key) (normalized_at settings_table key))
unfolding lookup
load_payload-lookup_example =
    load_payload-lookup environment (object (entry "rrq" (object settings_table) nothing))
      settings_table refl
