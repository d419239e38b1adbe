-- ===== src/Config/Load.antt =====
-- `normalize_toml_payload`, `normalize_queue_fields`, `env_overrides` and the payload of
-- `load_toml_settings_with_runner_mode`, of rrq-rs/config/src/config.rs. Reading the file, the parser
-- of TOML and the deserialization of the result are not modelled.
pub mod Normalized
pub mod Overrides
pub mod Keys
use rrq.Prelude.{String, Bool, true, false, ◌||◌, Option, none, some, ◌==◌, if◌then◌else◌}
use rrq.Keys.{normalize_queue_name}
use rrq.Config.Merge.{
  Value, null, boolean, number, text, array, object, Entries, nothing, entry, lookup, remove,
  insert, deep_merge,
}

-- The change of an entry by `get_mut`.
unfoldable pub update : String → (Value → Value) → Entries → Entries
update k f nothing = nothing
update k f (entry j v m) = if j == k then entry j (f v) m else entry j v (update k f m)

-- The loop over the routes.
unfoldable pub normalize_routes : Entries → Entries → Entries
normalize_routes normalized nothing = normalized
normalize_routes normalized (entry queue_name runner_name rest) =
    normalize_routes (insert (normalize_queue_name queue_name) runner_name normalized) rest

abbrev pub normalize_name : Value → Value
normalize_name (text queue_name) = text (normalize_queue_name queue_name)
normalize_name v = v

abbrev pub normalize_table : Value → Value
normalize_table (object routes) = object (normalize_routes nothing routes)
normalize_table v = v

unfoldable pub normalize_queue_fields : Entries → Entries
normalize_queue_fields map =
    update "runner_routes" normalize_table (update "default_queue_name" normalize_name map)

abbrev pub move_routing : Option Value → Entries → Entries
move_routing none map = map
move_routing (some routing) map = insert "runner_routes" routing (remove "routing" map)

abbrev pub rrq_table : Option Value → Value → Value
rrq_table none payload = payload
rrq_table (some rrq_value) payload = rrq_value

abbrev pub unwrap_rrq : Value → Value
unwrap_rrq (object map) = rrq_table (lookup "rrq" map) (object map)
unwrap_rrq payload = payload

unfoldable pub normalize_entries : Entries → Entries
unfolding normalize_queue_fields
normalize_entries map =
    normalize_queue_fields (remove "worker_concurrency" (move_routing (lookup "routing" map) map))

abbrev pub normalize_object : Value → Option Value
normalize_object (object map) = some (object (normalize_entries map))
normalize_object payload = none

-- `none` is the error.
unfoldable pub normalize_toml_payload : Value → Option Value
normalize_toml_payload payload = normalize_object (unwrap_rrq payload)

-- An environment variable that is not set is `none`.
abbrev pub Variables : Type 0
Variables = String → Option String

abbrev pub set_text : String → Option String → Entries → Entries
set_text key none map = map
set_text key (some value) map = if value == "" then map else insert key (text value) map

abbrev pub set_flag : String → Option String → Entries → Entries
set_flag key none map = map
set_flag key (some value) map =
    if value == ""
    then map
    else insert key (boolean (value == "1" || (value == "true" || value == "yes"))) map

unfoldable pub env_overrides : Variables → Entries
env_overrides var =
    set_flag "capture_runner_output" (var "RRQ_CAPTURE_RUNNER_OUTPUT")
      (set_text "redis_dsn" (var "RRQ_REDIS_DSN") nothing)

abbrev pub merge_with : Option Value → Entries → Option Value
merge_with none overrides = none
merge_with (some payload) overrides = some (deep_merge payload (object overrides))

-- The payload that is deserialized.
unfoldable pub load_payload : Variables → Value → Option Value
load_payload var file = merge_with (normalize_toml_payload file) (env_overrides var)
