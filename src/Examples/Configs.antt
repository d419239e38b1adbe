-- ===== src/Examples/Configs.antt =====
-- The theorems on the configuration at concrete settings.
use rrq.Prelude.{true, some, [], ◌∷◌, ◌≡◌, refl, unwrap_or}
use rrq.Keys.{normalize_queue_name}
use rrq.Worker.Routing.{provisional_claim_lock_timeout_ms}
use rrq.Config.Pools.{is_valid, gives_timeout, validate_timeouts-agrees}
use rrq.Config.{validate_timeouts, RunnerConfig, routed, determine_needed_runners}
use rrq.Config.Needed.{member, determine_needed_runners-covers}
use rrq.Examples.Data.{sample_settings}

abbrev sample_runner : RunnerConfig
sample_runner = record {
  cmd = some ("rrq-runner" ∷ []);
  pool_size = some 4;
  max_in_flight = some 8;
  tcp_port = some 9000;
}

determine_needed_runners-covers_example :
    member
      (unwrap_or (routed sample_settings.runner_routes "rrq:queue:mail") "python")
      (determine_needed_runners sample_settings ("mail" ∷ []))
    ≡ true
unfolding normalize_queue_name
determine_needed_runners-covers_example =
    determine_needed_runners-covers sample_settings ("mail" ∷ []) "rrq:queue:mail" refl refl

validate_timeouts-agrees_example :
    is_valid (validate_timeouts sample_settings)
    ≡ gives_timeout (provisional_claim_lock_timeout_ms sample_settings)
validate_timeouts-agrees_example = validate_timeouts-agrees sample_settings
