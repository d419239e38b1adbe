-- ===== src/Float.antt =====
-- The operations of f64 that the program uses. The proofs need only that `min` is below its second
-- argument and that the order is reflexive.
use rrq.Prelude.{ℕ}
use rrq.Prelude.Int.{ℤ}

pub record Float : Type 1 where
  pub F64 : Type 0
  pub of_int : ℤ → F64
  pub of_nat : ℕ → F64
  pub add : F64 → F64 → F64
  pub mul : F64 → F64 → F64
  pub min : F64 → F64 → F64
  pub le : F64 → F64 → Type 0
  pub min-le : (a b : F64) → le (min a b) b
