-- ===== src/Runner/Tables/Maps.antt =====
-- Laws of the sets and maps of rrq-rs/runner/src/runtime.rs.
use rrq.Prelude.{
  ℕ, String, true, false, Option, none, some, List, [], ◌∷◌, ◌≡◌, ◌==◌, refl, inl, inr, arith,
  eq_iff, eq_refl, nat_eq, Bool-cases,
}
use rrq.Runner.Tables.{
  contains, remove, get, without, put, set_requests, drop_entry, keep_entry, or_empty,
}

apart : (a b : String) → (a == b) ≡ false → (b == a) ≡ false
apart a b h = elim (Bool-cases (b == a)) [
  | inl e ↦
      (let same = (eq_iff b a).0 e in
        let other : (a == b) ≡ true = rw (same) (eq_refl a) in grind arith)
  | inr e ↦ e
]

pub contains-remove : (x : String) (xs : List String) → contains x (remove x xs) ≡ false
contains-remove x [] = refl
contains-remove x (y ∷ ys) = elim (Bool-cases (x == y)) [
  | inl e ↦ rw (e) (contains-remove x ys)
  | inr e ↦ rw (e) (rw (e) (contains-remove x ys))
]

pub get-without :
    {V : Type 0} (m : List (String × V)) (key id : String)
    → (id == key) ≡ false
    → get (without m key) id ≡ get m id
get-without [] key id h = refl
get-without ((k, v) ∷ m) key id h = elim (Bool-cases (k == key)) [
  | inl e ↦
      (let other : (k == id) ≡ false = apart id k (rw ((eq_iff k key).0 e) h) in
        rw (e, other) (get-without m key id h))
  | inr e ↦ elim (Bool-cases (k == id)) [
    | inl f ↦ rw (e, f) refl
    | inr f ↦ rw (e, f) (get-without m key id h)
  ]
]

pub get-put :
    {V : Type 0} (m : List (String × V)) (key : String) (v : V) → get (put m key v) key ≡ some v
get-put m key v = rw (eq_refl key) refl

pub set_requests-here :
    (f : ℕ → List String) (c : ℕ) (xs : List String) → set_requests f c xs c ≡ xs
set_requests-here f c xs = let e : nat_eq c c ≡ true = ground arith in rw (e) refl

pub get-without_same :
    {V : Type 0} (m : List (String × V)) (key : String) → get (without m key) key ≡ none
get-without_same [] key = refl
get-without_same ((k, v) ∷ m) key = elim (Bool-cases (k == key)) [
  | inl e ↦ rw (e) (get-without_same m key)
  | inr e ↦ rw (e) (rw (e) (get-without_same m key))
]

pub drop_entry-gone :
    (index : List (String × List String)) (job_id id : String) (o : Option (List String))
    → get index job_id ≡ o
    → contains id (or_empty (get (drop_entry index job_id id o) job_id)) ≡ false
drop_entry-gone index job_id id none e = rw (e) refl
drop_entry-gone index job_id id (some entries) e =
    left (remove id entries) (contains-remove id entries)
  where
    left :
        (xs : List String)
        → contains id xs ≡ false
        → contains id (or_empty (get (keep_entry index job_id xs) job_id)) ≡ false
    left [] h = rw (get-without_same index job_id) refl
    left (x ∷ xs) h = rw (get-put index job_id (x ∷ xs)) h
