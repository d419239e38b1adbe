-- ===== src/Examples/Frames.antt =====
-- The theorem on frames at a concrete message and a concrete codec: one byte for each status.
use rrq.Prelude.{ℕ, Option, none, some, List, [], ◌∷◌, nat_eq, if◌then◌else◌}
use rrq.Protocol.{OutcomeStatus, success, retry, timeout, error}

abbrev to_vec : OutcomeStatus → Option (List ℕ)
to_vec success = some (115 ∷ [])
to_vec retry = some (114 ∷ [])
to_vec timeout = some (116 ∷ [])
to_vec error = some (101 ∷ [])

abbrev from_slice : List ℕ → Option OutcomeStatus
from_slice (b ∷ []) =
    if nat_eq b 115
    then some success
    else if nat_eq b 114
    then some retry
    else if nat_eq b 116
    then some timeout
    else if nat_eq b 101
    then some error
    else none
from_slice _ = none
