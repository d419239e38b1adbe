-- ===== src/RunnerPool/Ready.antt =====
-- The processes that `ensure_process` of rrq-rs/orchestrator/src/runner.rs leaves.
use mathlib.Core.Bool.{true≢false}
use rrq.Prelude.{
  ℕ, zero, suc, Bool, true, false, Option, none, some, ◌≡◌, ◌∙◌, refl, inl, inr, arith, List, [],
  ◌∷◌, sym, ap, ◌⊎◌, if◌then◌else◌,
}
use rrq.RunnerPool.{
  SocketProcess, SocketRunnerPool, Trial, process_at, set_at, ensure_process, respawn, is_alive,
  next_tcp_socket, attempt_on, socket_for, spawn_attempts, spawn_process, or_new_socket,
  replaced_by, port_taken, not_started, not_connected, connected,
}

-- A spawn leaves the pool's processes alone and gives a live process with all its permits.
pub record Kept (pool pool' : SocketRunnerPool) : Type 0 where
  pub external : pool'.external ≡ pool.external
  pub processes : pool'.processes ≡ pool.processes
  pub max_in_flight : pool'.max_in_flight ≡ pool.max_in_flight

abbrev pub Live : SocketRunnerPool → Option SocketProcess × SocketRunnerPool → Type 0
Live pool (none, pool') = Kept pool pool'
Live pool (some proc, pool') =
    Kept pool pool' × (proc.child ≡ some true) × (proc.permits ≡ pool.max_in_flight)

socket_for-Kept : (reuse : Option ℕ) (pool : SocketRunnerPool) → Kept pool (socket_for reuse pool).1
unfolding next_tcp_socket
socket_for-Kept none pool = ground arith
socket_for-Kept (some s) pool = ground arith

later :
    {pool pool' : SocketRunnerPool} (r : Option SocketProcess × SocketRunnerPool)
    → Kept pool pool'
    → Live pool' r
    → Live pool r
later (none, p) k h = ground arith
later (some proc, p) k h = ground arith

attempt-Live :
    (trial : Trial) (reuse socket : Option ℕ) (pool pool' : SocketRunnerPool)
    (again : SocketRunnerPool → Option SocketProcess × SocketRunnerPool)
    → Kept pool pool'
    → Live pool' (again pool')
    → Live pool (attempt_on trial reuse (socket, pool') again)
attempt-Live trial reuse none pool pool' again k h = k
attempt-Live port_taken reuse (some s) pool pool' again k h = later (again pool') k h
attempt-Live not_started reuse (some s) pool pool' again k h = k
attempt-Live not_connected none (some s) pool pool' again k h = later (again pool') k h
attempt-Live not_connected (some x) (some s) pool pool' again k h = k
attempt-Live connected reuse (some s) pool pool' again k h = (k, refl, k.max_in_flight)

attempts-Live :
    (trial : ℕ → Trial) (reuse : Option ℕ) (left : ℕ) (pool : SocketRunnerPool)
    → Live pool (spawn_attempts trial reuse left pool)
unfolding spawn_attempts
attempts-Live trial reuse zero pool = ground arith
attempts-Live trial reuse (suc left) pool =
    attempt-Live (trial left) reuse (socket_for reuse pool).0 pool (socket_for reuse pool).1
      (spawn_attempts trial reuse left) (socket_for-Kept reuse pool)
      (attempts-Live trial reuse left (socket_for reuse pool).1)

Live-if :
    (pool : SocketRunnerPool) (b : Bool) (x y : Option SocketProcess × SocketRunnerPool)
    → Live pool x
    → Live pool y
    → Live pool (if b then x else y)
Live-if pool true x y h k = h
Live-if pool false x y h k = k

spawn-Live :
    (trial : ℕ → Trial) (reuse : Option ℕ) (pool : SocketRunnerPool)
    → Live pool (spawn_process trial reuse pool)
unfolding spawn_process
spawn-Live trial reuse pool =
    Live-if pool pool.external _ _
      (record { external = refl; processes = refl; max_in_flight = refl })
      (attempts-Live trial reuse _ pool)

new_socket-Live :
    (trial : ℕ → Trial) (pool : SocketRunnerPool) (r : Option SocketProcess × SocketRunnerPool)
    → Live pool r
    → Live pool (or_new_socket trial r)
new_socket-Live trial pool (some proc, pool') h = h
new_socket-Live trial pool (none, pool') h =
    later (spawn_process trial none pool') h (spawn-Live trial none pool')

pub process_at-set_at :
    (index : ℕ) (proc : SocketProcess) (procs : List SocketProcess) {old : SocketProcess}
    → process_at index procs ≡ some old
    → process_at index (set_at index proc procs) ≡ some proc
process_at-set_at index proc [] h = cc
process_at-set_at zero proc (x ∷ xs) h = refl
process_at-set_at (suc n) proc (x ∷ xs) h = process_at-set_at n proc xs h

-- The process at the index is there and, unless others manage it, alive; it is the one that was
-- there, or a new one with all its permits.
pub record IsReady (index : ℕ) (pool pool' : SocketRunnerPool) : Type 0 where
  pub proc : SocketProcess
  pub here : process_at index pool'.processes ≡ some proc
  pub external : pool'.external ≡ pool.external
  pub alive : pool.external ≡ false → is_alive proc.child ≡ true
  pub fresh : (pool' ≡ pool) ⊎ (proc.permits ≡ pool.max_in_flight)

abbrev pub Ready : ℕ → SocketRunnerPool → Bool × SocketRunnerPool → Type 0
Ready index pool (false, pool') = Unit {0}
Ready index pool (true, pool') = IsReady index pool pool'

Ready-if :
    (index : ℕ) (pool : SocketRunnerPool) (b : Bool) (x y : Bool × SocketRunnerPool)
    → (b ≡ true → Ready index pool x)
    → (b ≡ false → Ready index pool y)
    → Ready index pool (if b then x else y)
Ready-if index pool true x y h k = h refl
Ready-if index pool false x y h k = k refl

module _ (index : ℕ) (proc : SocketProcess) (pool : SocketRunnerPool)
    (here : process_at index pool.processes ≡ some proc) where
  replaced-Ready :
      (r : Option SocketProcess × SocketRunnerPool)
      → Live pool r
      → Ready index pool (replaced_by index proc r)
  replaced-Ready (none, pool') h = tt
  replaced-Ready (some new, pool') (k, live, full) = record {
    proc = new;
    here =
        process_at-set_at index new pool'.processes
          (ap (λ l. process_at index l) k.processes ∙ here);
    external = k.external;
    alive = λ _. ap is_alive live;
    fresh = inr full;
  }

  pub ensure-Ready :
      (reuse_trial new_trial : ℕ → Trial)
      → Ready index pool (ensure_process reuse_trial new_trial index proc pool)
  unfolding ensure_process respawn
  ensure-Ready reuse_trial new_trial =
      Ready-if index pool pool.external _ _
        (λ e. record {
          proc = proc;
          here = here;
          external = refl;
          alive = λ other. cc;
          fresh = inl refl;
        })
        (λ e.
          Ready-if index pool (is_alive proc.child) _ _
            (λ lives. record {
              proc = proc;
              here = here;
              external = refl;
              alive = λ _. lives;
              fresh = inl refl;
            })
            (λ dead.
              Ready-if index pool pool.external _ _ (λ other. absurd (true≢false (sym other ∙ e)))
                (λ _. replaced-Ready _ (
                  new_socket-Live new_trial pool _
                    (spawn-Live reuse_trial (some proc.socket) pool)))))
