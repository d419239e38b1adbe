-- ===== src/Producer/Correlation/Bounds.antt =====
-- The size of a correlation context: rrq-rs/producer/src/lib.rs.
use Prim.Native.String.len.{cons as len-cons}
use Prim.Native.Char.{len_utf8}
use Prim.Native.String.{len, ◌++◌ as text_append, [] as text_nil, ◌∷◌ as text_cons}
use text.Mathlib.TextPositions.{len-append}
use rrq.Prelude.{
  ℕ, suc, ◌+◌, ◌≤◌, String, false, Option, none, some, List, [], ◌∷◌, ◌==◌, ◌≡◌, ltb, leb, ◌||◌,
  inl, inr, arith, Bool-cases, length, All, subst,
}
use rrq.Producer.Correlation.{
  JsonValues, Entries, insert, push_chars, truncate_utf8, value_of, insert_value, add_mapping,
  correlation_loop, some_entries, extract_correlation_context,
}

push_chars-le :
    (s : String) (max : ℕ) (out : String) → len out ≤ max → len (push_chars s max out) ≤ max
push_chars-le text_nil max out h = h
push_chars-le (text_cons ch rest) max out h = elim (Bool-cases (ltb max (len out + len_utf8 ch))) [
  | inl e ↦ rw (e) h
  | inr e ↦ rw (e) (
      push_chars-le rest max (text_append out (text_cons ch text_nil))
        (let w = len-append out (text_cons ch text_nil) in grind (arith, len-cons ch text_nil)))
]

-- A truncated text has at most so many bytes.
pub truncate_utf8-le : (value : String) (max_len : ℕ) → len (truncate_utf8 value max_len) ≤ max_len
unfolding truncate_utf8
truncate_utf8-le value max_len = elim (Bool-cases (leb (len value) max_len)) [
  | inl e ↦ rw (e) (ground arith)
  | inr e ↦ rw (e) (push_chars-le value max_len "" (omega arith))
]

-- A key is not empty and has at most 64 bytes, and its value has at most 256.
abbrev pub Small : String × String → Type 0
Small (k, v) = ((k == "") ≡ false) × (len k ≤ 64) × (len v ≤ 256)

insert-Small : (m : Entries) (k v : String) → All Small m → Small (k, v) → All Small (insert m k v)
insert-Small [] k v a h = (h, tt)
insert-Small ((k', v') ∷ m) k v (a, all) h = elim (Bool-cases (k' == k)) [
  | inl e ↦ rw (e) (h, all)
  | inr e ↦ rw (e) (a, insert-Small m k v all h)
]

length-insert : (m : Entries) (k v : String) → length (insert m k v) ≤ suc (length m)
length-insert [] k v = omega arith
length-insert ((k', v') ∷ m) k v = let ih = length-insert m k v in ground arith

some_entries-Small :
    (m context : Entries)
    → some_entries m ≡ some context
    → All Small m
    → length m ≤ 16
    → (1 ≤ length context) × (length context ≤ 16) × All Small context
some_entries-Small [] context h a l = grind arith
some_entries-Small (x ∷ m) context h a l =
    let same : x ∷ m ≡ context = grind arith in
    subst (λ c. (1 ≤ length c) × (length c ≤ 16) × All Small c) same (omega arith, l, a)

module _ (j : JsonValues) where
  open j use {Map}

  insert_value-Small :
      (m : Entries) (k : String) (v : Option String)
      → (k == "") ≡ false
      → len k ≤ 64
      → All Small m
      → (All Small (insert_value j m k v)) × (length (insert_value j m k v) ≤ suc (length m))
  insert_value-Small m k none e l a = (a, omega arith)
  insert_value-Small m k (some v) e l a = (
    insert-Small m k (truncate_utf8 v 256) a (e, l, truncate_utf8-le v 256),
    length-insert m k (truncate_utf8 v 256),
  )

  add_mapping-Small :
      (params : Map) (trace : Option Entries) (m : Entries) (x : String × String)
      → All Small m
      → (All Small (add_mapping j params trace m x))
        × (length (add_mapping j params trace m x) ≤ suc (length m))
  add_mapping-Small params trace m (attr, path) a =
      elim (Bool-cases (j.trim attr == "" || ltb 64 (len (j.trim attr)))) [
        | inl e ↦ rw (e) (a, omega arith)
        | inr e ↦ rw (e) (
            insert_value-Small m (j.trim attr) (value_of j params trace (j.trim attr) path)
              (grind arith) (ground arith) a)
      ]

  loop-Small :
      (params : Map) (trace : Option Entries) (mappings : List (String × String)) (m : Entries)
      → All Small m
      → length m ≤ 16
      → (All Small (correlation_loop j params trace m mappings))
        × (length (correlation_loop j params trace m mappings) ≤ 16)
  unfolding correlation_loop
  loop-Small params trace [] m a l = (a, l)
  loop-Small params trace (x ∷ mappings) m a l = elim (Bool-cases (leb 16 (length m))) [
    | inl e ↦ rw (e) (a, l)
    | inr e ↦
        (let (a', l') = add_mapping-Small params trace m x a in
          rw (e)
            (loop-Small params trace mappings (add_mapping j params trace m x) a' (ground arith)))
  ]

  -- A correlation context is never empty, has at most 16 entries, and each has a key that is not
  -- empty and has at most 64 bytes, and a value of at most 256 bytes.
  pub extract_correlation_context-Small :
      (params : Map) (mappings : List (String × String)) (trace : Option Entries)
      (context : Entries)
      → extract_correlation_context j params mappings trace ≡ some context
      → (1 ≤ length context) × (length context ≤ 16) × All Small context
  unfolding extract_correlation_context
  extract_correlation_context-Small params [] trace context h = grind arith
  extract_correlation_context-Small params (x ∷ mappings) trace context h =
      let (a, l) = loop-Small params trace (x ∷ mappings) [] tt (omega arith) in
      some_entries-Small (correlation_loop j params trace [] (x ∷ mappings)) context h a l
