-- ===== src/Config/Load/Overrides.antt =====
-- What the environment sets in the payload of rrq-rs/config/src/config.rs.
use rrq.Prelude.{
  String, Bool, ◌||◌, Option, none, some, ◌==◌, ◌≡◌, ◌∙◌, refl, arith, eq_iff, ap, or_else,
  if◌then◌else◌, subst, Bool-cases, inl, inr,
}
use rrq.Config.Merge.{Value, text, boolean, object, Entries, nothing, lookup, insert, deep_merge}
use rrq.Config.Merge.Lookup.{IsMap, merged_at, lookup-insert}
use rrq.Config.Load.{Variables, set_text, set_flag, env_overrides}

-- What the environment sets at a key.
abbrev pub set_by : Option String → (String → Value) → Option Value
set_by none f = none
set_by (some value) f = if value == "" then none else some (f value)

abbrev pub override : Variables → String → Option Value
override var key =
    if "redis_dsn" == key
    then set_by (var "RRQ_REDIS_DSN") text
    else if "capture_runner_output" == key
    then set_by (var "RRQ_CAPTURE_RUNNER_OUTPUT")
        (λ value. boolean (value == "1" || (value == "true" || value == "yes")))
    else none

lookup-set_text :
    (k key : String) (o : Option String) (m : Entries)
    → lookup key (set_text k o m)
      ≡ (if k == key then or_else (set_by o text) (lookup key m) else lookup key m)
lookup-set_text k key none m = ground arith
lookup-set_text k key (some v) m = ground (arith, lookup-insert k key (text v) m)

abbrev flag : String → Value
flag value = boolean (value == "1" || (value == "true" || value == "yes"))

lookup-set_flag :
    (k key : String) (o : Option String) (m : Entries)
    → lookup key (set_flag k o m)
      ≡ (if k == key then or_else (set_by o flag) (lookup key m) else lookup key m)
lookup-set_flag k key none m = ground arith
lookup-set_flag k key (some v) m = ground (arith, lookup-insert k key (flag v) m)

pub lookup-env_overrides :
    (var : Variables) (key : String) → lookup key (env_overrides var) ≡ override var key
unfolding env_overrides lookup insert
lookup-env_overrides var key =
    lookup-set_flag "capture_runner_output" key (var "RRQ_CAPTURE_RUNNER_OUTPUT")
      (set_text "redis_dsn" (var "RRQ_REDIS_DSN") nothing)
    ∙ rw (lookup-set_text "redis_dsn" key (var "RRQ_REDIS_DSN") nothing) (at_key key)
  where
    or_none : (o : Option Value) → or_else o none ≡ o
    or_none none = refl
    or_none (some v) = refl

    Same : String → Type 0
    Same k =
        let dsn =
          if "redis_dsn" == k then or_else (set_by (var "RRQ_REDIS_DSN") text) none else none in
        (if "capture_runner_output" == k
          then or_else (set_by (var "RRQ_CAPTURE_RUNNER_OUTPUT") flag) dsn
          else dsn)
        ≡ override var k

    at_key : (k : String) → Same k
    at_key k = elim (Bool-cases ("redis_dsn" == k)) [
      | inl r ↦
          subst Same ((eq_iff "redis_dsn" k).0 r) (or_none (set_by (var "RRQ_REDIS_DSN") text))
      | inr no_r ↦ elim (Bool-cases ("capture_runner_output" == k)) [
        | inl c ↦
            subst Same ((eq_iff "capture_runner_output" k).0 c)
              (or_none (set_by (var "RRQ_CAPTURE_RUNNER_OUTPUT") flag))
        | inr no_c ↦ rw (no_r, no_c) refl
      ]
    ]

-- Merging a value that is no object replaces what is there.
deep_merge-text : (b : Value) (s : String) → deep_merge b (text s) ≡ text s
unfolding deep_merge
deep_merge-text (object m) s = refl
deep_merge-text _ s = refl

deep_merge-boolean : (b : Value) (x : Bool) → deep_merge b (boolean x) ≡ boolean x
unfolding deep_merge
deep_merge-boolean (object m) x = refl
deep_merge-boolean _ x = refl

merged_set :
    (b : Option Value) (o : Option String) (f : String → Value)
    → ((u : Value) (s : String) → deep_merge u (f s) ≡ f s)
    → merged_at b (set_by o f) ≡ or_else (set_by o f) b
unfolding merged_at
merged_set b none f h = refl
merged_set b (some s) f h = elim (Bool-cases (s == "")) [
  | inl empty ↦ rw empty refl
  | inr set ↦ rw set (replaces b)
]
  where
    replaces : (u : Option Value) → merged_at u (some (f s)) ≡ some (f s)
    replaces none = refl
    replaces (some u) = ap some (h u s)

pub merged_override :
    (b : Option Value) (var : Variables) (key : String)
    → merged_at b (override var key) ≡ or_else (override var key) b
unfolding merged_at
merged_override b var key = elim (Bool-cases ("redis_dsn" == key)) [
  | inl r ↦ rw r (merged_set b (var "RRQ_REDIS_DSN") text deep_merge-text)
  | inr no_r ↦ elim (Bool-cases ("capture_runner_output" == key)) [
    | inl c ↦
        rw (no_r, c)
          (merged_set b (var "RRQ_CAPTURE_RUNNER_OUTPUT") flag
            (λ u s. deep_merge-boolean u (s == "1" || (s == "true" || s == "yes"))))
    | inr no_c ↦ rw (no_r, no_c) refl
  ]
]

pub env_overrides-IsMap : (var : Variables) → IsMap (env_overrides var)
unfolding env_overrides IsMap insert lookup
env_overrides-IsMap var = two (var "RRQ_CAPTURE_RUNNER_OUTPUT") (var "RRQ_REDIS_DSN")
  where
    one : (b : Option String) → IsMap (set_text "redis_dsn" b nothing)
    one none = tt
    one (some s) = elim (Bool-cases (s == "")) [ inl e ↦ rw e tt | inr e ↦ rw e (refl, tt) ]

    two :
        (a b : Option String)
        → IsMap (set_flag "capture_runner_output" a (set_text "redis_dsn" b nothing))
    two none b = one b
    two (some s) b = elim (Bool-cases (s == "")) [ inl e ↦ rw e (one b) | inr e ↦ rw e (added s b) ]
      where
        added :
            (s : String) (b : Option String)
            → IsMap (insert "capture_runner_output" (flag s) (set_text "redis_dsn" b nothing))
        added s none = (refl, tt)
        added s (some t) = elim (Bool-cases (t == "")) [
          | inl e ↦ rw e (refl, tt)
          | inr e ↦ rw e (refl, (refl, tt))
        ]
