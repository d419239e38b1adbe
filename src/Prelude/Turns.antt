-- ===== src/Prelude/Turns.antt =====
-- A cursor that goes round a number of places.
use Prim.Native.Nat.{ℕ, ◌+◌, ◌-◌, ◌%◌, ◌<◌}
use mathlib.Core.Path.{◌≡◌}
use native.Mathlib.Nat.{mod-add-mod, mod-eq_of_lt}
use native.Mathlib.Omega.{arith}

-- So many steps take the cursor to the index.
pub index_after :
    (total cursor index : ℕ)
    → cursor < total
    → index < total
    → (cursor + (index + (total - cursor)) % total) % total ≡ index
index_after total cursor index h k =
    let around : cursor + (index + (total - cursor)) % total
        ≡ (index + (total - cursor)) % total + cursor =
      omega arith in
    let same : index + (total - cursor) + cursor ≡ index + total = omega arith in
    rw (around, mod-add-mod (index + (total - cursor)) total cursor, same)
      (grind (arith, mod-eq_of_lt))
