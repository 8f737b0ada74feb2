-- ===== src/Relay/Reconnect/Examples.antt =====
-- Delays of src/relay/relay_manager.cpp under the default settings, and under longer ones.
use kabot.Base.{
  ◌*◌, ◌^◌, min, true, false, none, some, List, [], ◌∷◌, ◌≡◌, refl, All, get_elem?, replicate,
  arith,
}
use kabot.Base.Int.{ℤ, pos}
use kabot.Config.Types.{Config, RelayManagedAgentConfig}
use kabot.Config.Defaults.{new_config, new_managed_agent}
use kabot.Config.Valid.{validate_config, connection_errors}
use kabot.Relay.Reconnect.{run, first_delay}
use kabot.Relay.Reconnect.Delays.{AllDelays, run-failures, validate_config-delays}

abbrev worker : RelayManagedAgentConfig
worker = record new_managed_agent {
  name = "worker";
  local_agent = "default";
  agent_id = "a1";
  token = "t";
  scheme = "ws";
  host = "relay";
  port = pos 80;
  path = "/ws";
  heartbeat_interval_s = pos 10;
  reconnect_initial_delay_ms = pos 1000;
  reconnect_max_delay_ms = pos 30000;
}

abbrev config : Config
config = record new_config {
  agents = record new_config.agents {
    instances = record { settings = new_config.agents.defaults; name = "default" } ∷ [];
  };
  relay = record new_config.relay { managed_agents = worker ∷ [] };
}

restarts :
    run worker (false ∷ false ∷ true ∷ false ∷ [])
    ≡ some (pos 1000 ∷ pos 2000 ∷ pos 1000 ∷ pos 2000 ∷ [])
unfolding run
restarts = refl

-- Settings that pass ValidateConfig and whose first delay has no double.
abbrev slow_worker : RelayManagedAgentConfig
slow_worker = record worker {
  reconnect_initial_delay_ms = pos 1100000000;
  reconnect_max_delay_ms = pos 1100000000;
}

slow_worker-valid : connection_errors slow_worker ≡ []
unfolding connection_errors
slow_worker-valid = refl

slow_worker_overflows : run slow_worker (false ∷ []) ≡ none
unfolding run
slow_worker_overflows = refl

config-valid : validate_config config ≡ []
unfolding validate_config kabot.Config.Types.find_agent
config-valid = refl

run-failures_example :
    (delays : List ℤ) × (run worker (replicate 7 false) ≡ some delays)
    × (get_elem? delays 6 ≡ some (pos (min 30000 (1000 * 2 ^ 6))))
unfolding first_delay
run-failures_example = run-failures worker 30000 1000 6 refl refl (omega arith) (omega arith)

validate_config-delays_example :
    All (λ a. AllDelays a (run a (false ∷ true ∷ []))) config.relay.managed_agents
validate_config-delays_example =
    validate_config-delays config (false ∷ true ∷ []) config-valid (omega arith, tt)
