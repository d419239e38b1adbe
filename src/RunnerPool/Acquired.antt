-- ===== src/RunnerPool/Acquired.antt =====
-- What `acquire_process` of rrq-rs/orchestrator/src/runner.rs gives, and when it waits.
use rrq.Prelude.{
  ℕ, zero, suc, ◌+◌, ◌-◌, ◌%◌, ◌<◌, Bool, true, false, Option, none, some, ◌≡◌, ◌∙◌, refl, inl, inr,
  Bool-cases, nat_eq, arith, List, [], ◌∷◌, length, sym, ap, subst, ◌⊎◌,
}
use native.Mathlib.Nat.{mod-add-mod, mod-lt}
use rrq.Prelude.Turns.{index_after}
use rrq.RunnerPool.{
  SocketProcess, SocketRunnerPool, Trial, process_at, ensure_process, is_alive, Look, acquired,
  failed, none_free, after_ensure, look_at, scan, acquire_turn,
}
use rrq.RunnerPool.Ready.{Ready, process_at-set_at, ensure-Ready}

-- The process whose permit has been taken.
pub record Taken (index : ℕ) (pool pool' : SocketRunnerPool) : Type 0 where
  pub proc : SocketProcess
  pub here : process_at index pool'.processes ≡ some proc
  pub alive : pool.external ≡ false → is_alive proc.child ≡ true

-- No permit of the process at the index is free.
abbrev pub Busy : SocketRunnerPool → ℕ → Type 0
Busy pool index =
    (proc : SocketProcess) → process_at index pool.processes ≡ some proc → proc.permits ≡ 0

-- How a look at some of the processes ends: nothing has changed where no permit was free.
abbrev pub Looked : SocketRunnerPool → (ℕ → Type 0) → Look × SocketRunnerPool → Type 0
Looked pool Seen (acquired index, pool') = Taken index pool pool'
Looked pool Seen (failed, pool') = Unit {0}
Looked pool Seen (none_free, pool') = (pool' ≡ pool) × ((index : ℕ) → Seen index → Busy pool index)

module _ (pool : SocketRunnerPool) (positive : 0 < pool.max_in_flight) (index : ℕ)
    (Seen Rest : ℕ → Type 0) (split : (i : ℕ) → Seen i → (i ≡ index) ⊎ Rest i)
    (next : SocketRunnerPool → Look × SocketRunnerPool) (ih : Looked pool Rest (next pool)) where
  with_index :
      Busy pool index → (r : Look × SocketRunnerPool) → Looked pool Rest r → Looked pool Seen r
  with_index busy (acquired i, p) h = h
  with_index busy (failed, p) h = tt
  with_index busy (none_free, p) h =
      (h.0, λ i s. elim (split i s) [ inl e ↦ rw e busy | inr r ↦ h.1 i r ])

  ensured-Looked :
      (r : Bool × SocketRunnerPool)
      → Ready index pool r
      → Looked pool Seen (after_ensure index r next)
  ensured-Looked (false, p) h = tt
  ensured-Looked (true, p) h = rw h.here (elim (Bool-cases (nat_eq h.proc.permits 0)) [
    | inl used_up ↦ rw used_up (elim h.fresh [
      | inl same ↦
          subst (λ (q : SocketRunnerPool). Looked pool Seen (next q)) (sym same)
            (with_index
              (λ proc e.
                let mine : some h.proc ≡ some proc =
                  sym h.here
                  ∙ ap (λ (q : SocketRunnerPool). process_at index q.processes) same
                  ∙ e in
                let zero_of : nat_eq h.proc.permits 0 ≡ true = used_up in ground (arith, mine))
              (next pool) ih)
      | inr full ↦ absurd (ground (arith, full, used_up))
    ])
    | inr left ↦ rw left (record {
      proc = record h.proc { permits = h.proc.permits - 1 };
      here =
          process_at-set_at index (record h.proc { permits = h.proc.permits - 1 }) p.processes
            h.here;
      alive = h.alive;
    })
  ])

  look-Looked :
      (reuse_trial new_trial : ℕ → ℕ → Trial) (o : Option SocketProcess)
      → process_at index pool.processes ≡ o
      → Looked pool Seen (look_at reuse_trial new_trial index o pool next)
  look-Looked reuse_trial new_trial none e = tt
  look-Looked reuse_trial new_trial (some proc) e =
      ensured-Looked (ensure_process (reuse_trial index) (new_trial index) index proc pool)
        (ensure-Ready index proc pool e (reuse_trial index) (new_trial index))

-- The indexes of a scan.
abbrev Among : SocketRunnerPool → ℕ → ℕ → ℕ → ℕ → Type 0
Among pool start left offset index =
    (k : ℕ) × (k < left) × (index ≡ (start + (offset + k)) % length pool.processes)

scan-Looked :
    (reuse_trial new_trial : ℕ → ℕ → Trial) (start left offset : ℕ) (pool : SocketRunnerPool)
    → 0 < pool.max_in_flight
    → Looked pool (Among pool start left offset) (scan reuse_trial new_trial start left offset pool)
unfolding scan
scan-Looked reuse_trial new_trial start zero offset pool h =
    (refl, λ i s. absurd (omega (arith, s.1)))
scan-Looked reuse_trial new_trial start (suc left) offset pool h =
    look-Looked pool h ((start + offset) % length pool.processes)
      (Among pool start (suc left) offset) (Among pool start left (suc offset))
      (λ i s. first_or_rest i s.0 s.1 s.2) (scan reuse_trial new_trial start left (suc offset))
      (scan-Looked reuse_trial new_trial start left (suc offset) pool h) reuse_trial new_trial _
      refl
  where
    first_or_rest :
        (i k : ℕ)
        → k < suc left
        → i ≡ (start + (offset + k)) % length pool.processes
        → (i ≡ (start + offset) % length pool.processes) ⊎ Among pool start left (suc offset) i
    first_or_rest i zero b e =
        inl (e ∙ ap (λ (n : ℕ). (start + n) % length pool.processes) (omega arith))
    first_or_rest i (suc k) b e =
        inr (k, omega arith, e ∙ ap (λ (n : ℕ). (start + n) % length pool.processes) (omega arith))

-- How a turn ends.
abbrev pub Turned : SocketRunnerPool → Look × SocketRunnerPool → Type 0
Turned pool (acquired index, pool') = Taken index pool pool'
Turned pool (failed, pool') = Unit {0}
Turned pool (none_free, pool') =
    (pool'.processes ≡ pool.processes) × ((index : ℕ) → Busy pool index)

within :
    (index : ℕ) (procs : List SocketProcess) {proc : SocketProcess}
    → process_at index procs ≡ some proc
    → index < length procs
within index [] e = cc
within zero (x ∷ xs) e = omega arith
within (suc n) (x ∷ xs) e = omega (arith, within n xs e)

reached : (start i n : ℕ) → i < n → (k : ℕ) × (k < n) × (i ≡ (start + (0 + k)) % n)
reached start i n h =
    let k = (i + (n - start % n)) % n in
    let at_start : (start % n + k) % n ≡ i =
      index_after n (start % n) i (mod-lt start (omega arith)) h in
    let plain : start + (0 + k) ≡ start + k = omega arith in
    (k, mod-lt _ (omega arith), rw (plain, ← (mod-add-mod start n k)) (sym at_start))

turned :
    (pool : SocketRunnerPool) (r : Look × SocketRunnerPool)
    → Looked
        (record pool { cursor = pool.cursor + 1 })
        (Among (record pool { cursor = pool.cursor + 1 }) pool.cursor (length pool.processes) 0)
        r
    → Turned pool r
turned pool (acquired i, p) h = record { proc = h.proc; here = h.here; alive = h.alive }
turned pool (failed, p) h = tt
turned pool (none_free, p) h = (
  ap (λ (q : SocketRunnerPool). q.processes) h.0,
  λ i proc e.
      h.1 i (reached pool.cursor i (length pool.processes) (within i pool.processes e)) proc e,
)

-- A turn of `acquire_process` that gives a process gives one that is there and, unless others manage
-- it, has been found alive or has just been started. It waits only where no process has a free
-- permit, and then leaves the processes as they were.
pub acquire_turn-Turned :
    (reuse_trial new_trial : ℕ → ℕ → Trial) (pool : SocketRunnerPool)
    → 0 < pool.max_in_flight
    → Turned pool (acquire_turn reuse_trial new_trial pool)
unfolding acquire_turn
acquire_turn-Turned reuse_trial new_trial pool h =
    elim (Bool-cases (nat_eq (length pool.processes) 0)) [
      | inl empty ↦ rw empty tt
      | inr some_there ↦ rw some_there (
          turned pool _ (
            scan-Looked reuse_trial new_trial pool.cursor (length pool.processes) 0
              (record pool { cursor = pool.cursor + 1 }) h))
    ]
