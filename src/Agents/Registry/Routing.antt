-- ===== src/Agents/Registry/Routing.antt =====
-- Which agent a message is routed to.
use kabot.Base.{true, false, none, some, List, ◌∷◌, ◌≡◌, ◌⊎◌, empty, is_some, arith, eq_refl}
use kabot.Bus.{InboundMessage}
use kabot.Agents.Registry.{
  AgentInstanceConfig, Config, find_agent, default_agent_name, resolve_agent_name, bound_agent,
}

-- If any agent is configured, a message is routed to a configured agent, whatever it names.
pub resolve_agent_name_found :
    (c : Config) (msg : InboundMessage) (first : AgentInstanceConfig)
    (others : List AgentInstanceConfig)
    → c.agents ≡ first ∷ others
    → is_some (find_agent c (resolve_agent_name c msg)) ≡ true
unfolding resolve_agent_name find_agent default_agent_name
resolve_agent_name_found c msg first others e = ground (arith, eq_refl first.name)

-- The order of precedence: the agent that the message names, then the one that its channel instance
-- is bound to, each if it is configured; then the first agent of the configuration, or "default".
pub resolve_agent_name_cases :
    (c : Config) (msg : InboundMessage)
    → ((resolve_agent_name c msg ≡ msg.agent_name)
        × (empty msg.agent_name ≡ false)
        × (is_some (find_agent c msg.agent_name) ≡ true))
      ⊎ (((empty msg.agent_name ≡ true) ⊎ (find_agent c msg.agent_name ≡ none))
          × (bound_agent c msg ≡ some (resolve_agent_name c msg)))
      ⊎ (((empty msg.agent_name ≡ true) ⊎ (find_agent c msg.agent_name ≡ none))
          × (bound_agent c msg ≡ none)
          × (resolve_agent_name c msg ≡ default_agent_name c))
unfolding resolve_agent_name
resolve_agent_name_cases c msg = ground arith
