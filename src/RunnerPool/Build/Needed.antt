-- ===== src/RunnerPool/Build/Needed.antt =====
-- Which pools `build_runners_from_settings_filtered` of rrq-rs/orchestrator/src/runner.rs makes.
use rrq.Prelude.{
  ℕ, ◌≤◌, String, Bool, true, false, Option, none, some, List, [], ◌∷◌, ◌≡◌, ◌⊎◌, inl, inr, refl,
  arith, unwrap_or, if◌then◌else◌, subst,
}
use rrq.Config.TcpSocket.{Network}
use rrq.RunnerPool.{SocketRunnerPool, Trial}
use rrq.RunnerPool.Start.{NewPool, started, rejected, closed}
use rrq.RunnerPool.Start.Checked.{Checked, new_pool-Checked}
use rrq.RunnerPool.Build.{
  RunnerEntry, BuildStep, skipped, made, failed, BuildError, empty_cmd, Runners, built, unbuilt,
  number_of, is_needed, runner_tcp_socket_from_host_port, host_of, of_new, cmd_of, build_at,
  build_sized, build_runner, after_step, build_runners_from_settings_filtered,
}

module _ (net : Network) where
  open net use {IpAddr, localhost, is_loopback}

  of_new-made :
      (r : NewPool IpAddr) (ip : IpAddr) (pool : SocketRunnerPool)
      → of_new net r ≡ made ip pool
      → r ≡ started ip pool
  of_new-made (started x p) ip pool h = grind arith
  of_new-made (rejected e) ip pool h = ground arith
  of_new-made (closed p) ip pool h = ground arith

  abbrev is_skipped : BuildStep IpAddr → Bool
  is_skipped skipped = true
  is_skipped (made ip pool) = false
  is_skipped (failed e) = false

  of_new-attempted : (r : NewPool IpAddr) → is_skipped (of_new net r) ≡ false
  of_new-attempted (started x p) = refl
  of_new-attempted (rejected e) = refl
  of_new-attempted (closed p) = refl

  guarded-attempted :
      (b : Bool) (e : BuildError) (s : BuildStep IpAddr)
      → is_skipped s ≡ false
      → is_skipped (if b then failed e else s) ≡ false
  guarded-attempted true e s h = refl
  guarded-attempted false e s h = h

  unguarded :
      (b : Bool) (e : BuildError) (s : BuildStep IpAddr) (ip : IpAddr) (pool : SocketRunnerPool)
      → (if b then failed e else s) ≡ made ip pool
      → s ≡ made ip pool
  unguarded true e s ip pool h = ground arith
  unguarded false e s ip pool h = h

  module _ (port_text : ℕ → String) (trials : String → ℕ → ℕ → Trial) (external : Bool) where
    -- A pool that has been made for a runner's configuration.
    abbrev pub MadeFor : RunnerEntry → ℕ → ℕ → IpAddr → SocketRunnerPool → Type 0
    MadeFor c pool_size max_in_flight ip pool =
        (port : ℕ) × (c.tcp_port ≡ some port)
        × Checked net
            (runner_tcp_socket_from_host_port (host_of net external c.tcp_host) (port_text port))
            (unwrap_or c.allowed_hosts []) pool_size max_in_flight ip pool

    build_at-MadeFor :
        (name : String) (c : RunnerEntry) (pool_size max_in_flight : ℕ) (tcp_port : Option ℕ)
        (ip : IpAddr) (pool : SocketRunnerPool)
        → is_loopback localhost ≡ true
        → pool_size ≤ 4294901760
        → c.tcp_port ≡ tcp_port
        → build_at net port_text trials external name c pool_size max_in_flight tcp_port
          ≡ made ip pool
        → MadeFor c pool_size max_in_flight ip pool
    build_at-MadeFor name c size m none ip pool l small e h = ground arith
    build_at-MadeFor name c size m (some port) ip pool l small e h = (
      port,
      e,
      new_pool-Checked net (trials name) (cmd_of net port_text trials external c) size m _
          c.allowed_hosts ip pool l small (of_new-made _ ip pool h),
    )

    -- With the sizes and limits of the maps; a pool of a runner that others manage has one process.
    abbrev pub MadeWith : Option ℕ → Option ℕ → RunnerEntry → IpAddr → SocketRunnerPool → Type 0
    MadeWith size limit c ip pool =
        (configured : ℕ) × (max_in_flight : ℕ) × (size ≡ some configured)
        × (limit ≡ some max_in_flight)
        × MadeFor c (if external then 1 else configured) max_in_flight ip pool

    fits : (b : Bool) (n : ℕ) → n ≤ 4294901760 → (if b then 1 else n) ≤ 4294901760
    fits true n l = omega arith
    fits false n l = l

    build_sized-MadeWith :
        (name : String) (c : RunnerEntry) (size limit : Option ℕ) (ip : IpAddr)
        (pool : SocketRunnerPool)
        → is_loopback localhost ≡ true
        → ((n : ℕ) → size ≡ some n → n ≤ 4294901760)
        → build_sized net port_text trials external name c size limit ≡ made ip pool
        → MadeWith size limit c ip pool
    build_sized-MadeWith name c none limit ip pool l small h = ground arith
    build_sized-MadeWith name c (some n) none ip pool l small h = ground arith
    build_sized-MadeWith name c (some n) (some m) ip pool l small h = (
      n,
      m,
      refl,
      refl,
      build_at-MadeFor name c (if external then 1 else n) m c.tcp_port ip pool l
          (fits external n (small n refl)) refl (unguarded _ empty_cmd _ ip pool h),
    )

    build_at-attempted :
        (name : String) (c : RunnerEntry) (size m : ℕ) (tcp_port : Option ℕ)
        → is_skipped (build_at net port_text trials external name c size m tcp_port) ≡ false
    build_at-attempted name c size m none = refl
    build_at-attempted name c size m (some port) = of_new-attempted _

    build_sized-attempted :
        (name : String) (c : RunnerEntry) (size limit : Option ℕ)
        → is_skipped (build_sized net port_text trials external name c size limit) ≡ false
    build_sized-attempted name c none limit = refl
    build_sized-attempted name c (some n) none = refl
    build_sized-attempted name c (some n) (some m) =
        guarded-attempted _ empty_cmd _ (build_at-attempted name c _ m c.tcp_port)

    module _ (sizes limits : List (String × ℕ)) (needed : Option (List String)) where
      -- The pools of the runners that are needed, in their order, and no others.
      abbrev pub PoolsFor :
          List (String × RunnerEntry) → List (String × IpAddr × SocketRunnerPool) → Type 0
      PoolsFor [] pools = pools ≡ []
      PoolsFor ((name, c) ∷ runners) pools =
          ((is_needed needed name ≡ false) × PoolsFor runners pools)
          ⊎ ((is_needed needed name ≡ true)
              × ((ip : IpAddr) × (pool : SocketRunnerPool) × (rest : List
                    (String × IpAddr × SocketRunnerPool))
                  × (pools ≡ (name, ip, pool) ∷ rest)
                  × MadeWith (number_of sizes name) (number_of limits name) c ip pool
                  × PoolsFor runners rest))

      abbrev StepFor : String → RunnerEntry → BuildStep IpAddr → Type 0
      StepFor name c skipped = is_needed needed name ≡ false
      StepFor name c (made ip pool) =
          (is_needed needed name ≡ true)
          × MadeWith (number_of sizes name) (number_of limits name) c ip pool
      StepFor name c (failed e) = Unit {0}

      sized-StepFor :
          (name : String) (c : RunnerEntry) (s : BuildStep IpAddr)
          → is_needed needed name ≡ true
          → ((ip : IpAddr) (pool : SocketRunnerPool)
              → s ≡ made ip pool
              → MadeWith (number_of sizes name) (number_of limits name) c ip pool)
          → is_skipped s ≡ false
          → StepFor name c s
      sized-StepFor name c skipped e f n = ground arith
      sized-StepFor name c (made ip pool) e f n = (e, f ip pool refl)
      sized-StepFor name c (failed x) e f n = tt

      chosen-StepFor :
          (name : String) (c : RunnerEntry) (b : Bool) (s : BuildStep IpAddr)
          → is_needed needed name ≡ b
          → (b ≡ true → StepFor name c s)
          → StepFor name c (if b then s else skipped)
      chosen-StepFor name c true s e f = f refl
      chosen-StepFor name c false s e f = e

      build_runner-StepFor :
          (name : String) (c : RunnerEntry)
          → is_loopback localhost ≡ true
          → ((n : ℕ) → number_of sizes name ≡ some n → n ≤ 4294901760)
          → StepFor name c (build_runner net port_text trials external sizes limits needed name c)
      unfolding build_runner
      build_runner-StepFor name c l small =
          chosen-StepFor name c (is_needed needed name) _ refl (λ e.
            sized-StepFor name c _ e
              (λ ip pool h. build_sized-MadeWith name c _ _ ip pool l small h)
              (build_sized-attempted name c _ _))

      abbrev Outcome : List (String × RunnerEntry) → Runners IpAddr → Type 0
      Outcome runners (built pools) = PoolsFor runners pools
      Outcome runners (unbuilt e) = Unit {0}

      after_step-Outcome :
          (name : String) (c : RunnerEntry) (runners : List (String × RunnerEntry))
          (s : BuildStep IpAddr) (r : Runners IpAddr)
          → StepFor name c s
          → Outcome runners r
          → Outcome
              ((name, c) ∷ runners)
              (after_step net port_text trials external sizes limits needed name s r)
      after_step-Outcome name c runners skipped (built pools) f o = inl (f, o)
      after_step-Outcome name c runners skipped (unbuilt e) f o = tt
      after_step-Outcome name c runners (made ip pool) (built pools) (e, w) o =
          inr (e, (ip, pool, pools, refl, w, o))
      after_step-Outcome name c runners (made ip pool) (unbuilt e) f o = tt
      after_step-Outcome name c runners (failed x) r f o = tt

      build-Outcome :
          (runners : List (String × RunnerEntry))
          → is_loopback localhost ≡ true
          → ((name : String) (n : ℕ) → number_of sizes name ≡ some n → n ≤ 4294901760)
          → Outcome runners (
              build_runners_from_settings_filtered net port_text trials external sizes limits needed
                runners)
      unfolding build_runners_from_settings_filtered
      build-Outcome [] l small = refl
      build-Outcome ((name, c) ∷ runners) l small =
          after_step-Outcome name c runners _ _ (build_runner-StepFor name c l (small name))
            (build-Outcome runners l small)

      -- Where the pools of the configured runners are built, the needed runners have one each, in
      -- their order, and the others have none, if the address of localhost is a loopback address and
      -- the sizes are at most 2 ^ 32 - 2 ^ 16. The pool of a runner has the size and the limit that
      -- the maps have for it, or one process where others manage the processes; it stands at the
      -- runner's endpoint, has passed the checks of that, and has all its processes on ports of
      -- their own.
      pub build_runners-PoolsFor :
          (runners : List (String × RunnerEntry))
          (pools : List (String × IpAddr × SocketRunnerPool))
          → is_loopback localhost ≡ true
          → ((name : String) (n : ℕ) → number_of sizes name ≡ some n → n ≤ 4294901760)
          → build_runners_from_settings_filtered net port_text trials external sizes limits needed
              runners
            ≡ built pools
          → PoolsFor runners pools
      build_runners-PoolsFor runners pools l small h =
          subst (λ r. Outcome runners r) h (build-Outcome runners l small)
