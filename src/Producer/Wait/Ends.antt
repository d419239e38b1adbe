-- ===== src/Producer/Wait/Ends.antt =====
-- How the loop of `wait_for_completion` ends: rrq-rs/producer/src/lib.rs.
use rrq.Prelude.{
  ℕ, zero, suc, ◌+◌, ◌-◌, ◌≤◌, ◌<◌, String, true, false, Option, none, some, ◌≡◌, ◌⊎◌, inl, inr,
  refl, arith, subst, leb, is_some, Bool-cases, Option-cases,
}
use rrq.Redis.Calls.{Result, ok, err}
use rrq.Platform.{Platform}
use rrq.Producer.Enqueue.{Environment, ProducerConfig, JobResult}
use rrq.Producer.Wait.{
  RedisValue, Turns, wait_ms, is_terminal, look, settled, next_offset, wait_loop,
  wait_for_completion,
}

pub Result-cases : {A : Type 0} (x : Result A) → ((a : A) × (x ≡ ok a)) ⊎ ((e : _) × (x ≡ err e))
Result-cases (ok a) = inl (a, refl)
Result-cases (err e) = inr (e, refl)

le-cases : (i j : ℕ) → i ≤ j → (j ≡ i) ⊎ (suc i ≤ j)
le-cases i j h = ground arith

module _ (p : Platform) (env : Environment p) (config : ProducerConfig) (v : RedisValue)
    (turns : Turns p v.Value) (job_id : String) (deadline block_interval : ℕ) where
  open p.codec use {Json}

  abbrev pub Answer : Type 0
  Answer = Result (Option (JobResult Json))

  abbrev pub seen : ℕ → Answer
  seen = look p env config v turns job_id deadline block_interval

  abbrev pub end_of : Answer → Option Answer
  end_of = settled p env config v turns job_id deadline block_interval

  abbrev pub loop : ℕ → ℕ → String → Option Answer
  loop = wait_loop p env config v turns job_id deadline block_interval

  abbrev pub wait_at : ℕ → ℕ
  wait_at i = wait_ms block_interval (deadline - turns.clock i)

  abbrev offset_after : ℕ → String → v.Value → String
  offset_after i = next_offset p env config v turns job_id deadline block_interval

  -- A turn that ends nothing.
  step :
      (n i : ℕ) (offset : String) (x : v.Value)
      → end_of (seen i) ≡ none
      → leb deadline (turns.clock i) ≡ false
      → turns.reply i (wait_at i) offset ≡ ok x
      → loop (suc n) i offset ≡ loop n (suc i) (offset_after i offset x)
  unfolding wait_loop
  step n i offset x e l q = rw (e, l, q, wait_loop) refl

  ends :
      (n i : ℕ) (offset : String)
      → deadline ≤ turns.clock (n + i)
      → is_some (loop (suc n) i offset) ≡ true
  unfolding wait_loop
  ends zero i offset late = elim (Option-cases (end_of (seen i))) [
    | inr (answer, e) ↦ rw (e, wait_loop) refl
    | inl e ↦
        (let l : leb deadline (turns.clock i) ≡ true = ground arith in rw (e, l, wait_loop) refl)
  ]
  ends (suc n) i offset late = elim (Option-cases (end_of (seen i))) [
    | inr (answer, e) ↦ rw (e, wait_loop) refl
    | inl e ↦ elim (Bool-cases (leb deadline (turns.clock i))) [
      | inl l ↦ rw (e, l, wait_loop) refl
      | inr l ↦ elim (Result-cases (turns.reply i (wait_at i) offset)) [
        | inr (x, q) ↦ rw (e, l, q, wait_loop) refl
        | inl (x, q) ↦ rw (step (suc n) i offset x e l q) (
            ends n (suc i) (offset_after i offset x)
              (subst (λ k. deadline ≤ turns.clock k) (omega arith) late))
      ]
    ]
  ]

  -- The wait ends: once the clock of the n-th turn has reached the deadline, n + 1 turns are enough.
  pub wait_for_completion-ends :
      (n : ℕ)
      → deadline ≤ turns.clock n
      → is_some (wait_for_completion p env config v turns job_id deadline block_interval (suc n))
        ≡ true
  unfolding wait_for_completion
  wait_for_completion-ends n late =
      ends n 0 "$" (subst (λ k. deadline ≤ turns.clock k) (omega arith) late)

  -- From the i-th turn on, the n-th is the first that finds an end, and none is late before it.
  record Finds (i n : ℕ) (answer : Answer) : Type 0 where
    before : (k : ℕ) → i ≤ k → k < n + i → (end_of (seen k) ≡ none) × (turns.clock k < deadline)
    found : (m : ℕ) → m ≡ n + i → end_of (seen m) ≡ some answer

  finds :
      (n i : ℕ) (offset : String) (answer : Answer)
      → ((k ms : ℕ) (o : String) → (x : v.Value) × (turns.reply k ms o ≡ ok x))
      → Finds i n answer
      → loop (suc n) i offset ≡ some answer
  unfolding wait_loop
  finds zero i offset answer served f =
      let e : end_of (seen i) ≡ some answer = f.found i (omega arith) in rw (e, wait_loop) refl
  finds (suc n) i offset answer served f =
      let (e, early) = f.before i (omega arith) (omega arith) in
      let l : leb deadline (turns.clock i) ≡ false = ground arith in
      let (x, q) = served i (wait_at i) offset in
      rw (step (suc n) i offset x e l q) (
        finds n (suc i) (offset_after i offset x) answer served (record {
          before = λ k a b. f.before k (omega arith) (omega arith);
          found = λ m e. f.found m (omega arith);
        }))

  -- The wait finds the job's end: if the n-th look finds the job completed or failed, no look before
  -- it ends the wait, the clock has not reached the deadline before it and every XREAD is answered,
  -- then n + 1 turns return what that look found.
  pub wait_for_completion-finds :
      (n : ℕ) (s : JobResult Json)
      → seen n ≡ ok (some s)
      → is_terminal s.status ≡ true
      → ((k : ℕ) → k < n → (end_of (seen k) ≡ none) × (turns.clock k < deadline))
      → ((k ms : ℕ) (o : String) → (x : v.Value) × (turns.reply k ms o ≡ ok x))
      → wait_for_completion p env config v turns job_id deadline block_interval (suc n)
        ≡ some (ok (some s))
  unfolding wait_for_completion
  wait_for_completion-finds n s looked terminal before served =
      finds n 0 "$" (ok (some s)) served (record {
        before = λ k a b. before k (omega arith);
        found =
            λ m e. (let same : m ≡ n = omega arith in rw (same, looked, settled, terminal) refl);
      })

  -- What an answer of the turns from the i-th on rests on: a terminal status on a look, a turn that
  -- is late while no look up to it has found an end, or an error of Redis.
  abbrev pub Explains : ℕ → Answer → Type 0
  Explains i (ok (some s)) = (k : ℕ) × (seen k ≡ ok (some s)) × (is_terminal s.status ≡ true)
  Explains i (ok none) =
      (k : ℕ) × (deadline ≤ turns.clock k) × ((j : ℕ) → i ≤ j → j ≤ k → end_of (seen j) ≡ none)
  Explains i (err e) =
      (k : ℕ) × ((seen k ≡ err e) ⊎ ((o : String) × (turns.reply k (wait_at k) o ≡ err e)))

  end_of-Explains :
      (i : ℕ) (x answer : Answer) → seen i ≡ x → end_of x ≡ some answer → Explains i answer
  end_of-Explains i (err e) (err e') h q = (i, inl grind arith)
  end_of-Explains i (err e) (ok x) h q = grind arith
  end_of-Explains i (ok none) answer h q = grind arith
  end_of-Explains i (ok (some s)) answer h q = elim (Bool-cases (is_terminal s.status)) [
    | inl t ↦
        (let q' = rw (t, settled) at q in
          let same : Result.ok (some s) ≡ answer = grind arith in subst (Explains i) same (i, h, t))
    | inr t ↦ (let q' = rw (t, settled) at q in grind arith)
  ]

  Explains-suc :
      (i : ℕ) (answer : Answer)
      → end_of (seen i) ≡ none
      → Explains (suc i) answer
      → Explains i answer
  Explains-suc i (err e) q x = x
  Explains-suc i (ok (some s)) q x = x
  Explains-suc i (ok none) q (k, late, open_looks) =
      (k, late, λ j a b. elim (le-cases i j a) [ inl e ↦ rw (e) q | inr l ↦ open_looks j l b ])

  explained :
      (n i : ℕ) (offset : String) (answer : Answer)
      → loop n i offset ≡ some answer
      → Explains i answer
  unfolding wait_loop
  explained zero i offset answer h = grind arith
  explained (suc n) i offset answer h = elim (Option-cases (end_of (seen i))) [
    | inr (a, e) ↦
        (let h' = rw (e, wait_loop) at h in end_of-Explains i (seen i) answer refl (grind arith))
    | inl e ↦ elim (Bool-cases (leb deadline (turns.clock i))) [
      | inl l ↦
          (let h' = rw (e, l, wait_loop) at h in
            let same : Result.ok none ≡ answer = grind arith in
            subst (Explains i) same
              (i, ground arith, λ j a b. (let at_i : j ≡ i = omega arith in rw (at_i) e)))
      | inr l ↦ elim (Result-cases (turns.reply i (wait_at i) offset)) [
        | inr (x, q) ↦
            (let h' = rw (e, l, q, wait_loop) at h in
              let same : Result.err x ≡ answer = grind arith in
              subst (Explains i) same (i, inr (offset, q)))
        | inl (x, q) ↦ Explains-suc i answer e (
            explained n (suc i) (offset_after i offset x) answer
              (rw (step n i offset x e l q) at h))
      ]
    ]
  ]

  -- What `wait_for_completion` returns is true: a result is that of a look that found the job
  -- completed or failed, no result means that the deadline had passed at some turn and that no look
  -- up to that turn had found an end, and an error is one that a look or an XREAD has met.
  pub wait_for_completion-Explains :
      (fuel : ℕ) (answer : Answer)
      → wait_for_completion p env config v turns job_id deadline block_interval fuel ≡ some answer
      → Explains 0 answer
  unfolding wait_for_completion
  wait_for_completion-Explains fuel answer h = explained fuel 0 "$" answer h
