-- ===== src/Agents/Registry.antt =====
-- src/agent/agent_registry.cpp with the lookups of src/config/config_schema.hpp: which agent handles
-- an inbound message, and the reply that goes back to the bus. An agent (AgentLoop), the interceptor
-- and the post-processor are arguments that act on a state `S` of the rest of the program. The
-- progress reports of an agent run and the message bus are part of that state. An exception of an agent,
-- which its HandleInbound catches, of the interceptor or of the post-processor is not modelled.
pub mod Routing
pub mod Replies
mod Examples
use kabot.Base.{
  ℕ, Bool, true, false, not, ◌&&◌, String, Option, none, some, List, [], ◌∷◌, ◌++◌, find_first,
  str_eq, empty, if◌then◌else◌, is_some, any,
}
use kabot.Bus.{
  InboundMessage, OutboundMessage, MessageBus, or_else, effective_channel_instance,
  try_consume_inbound, publish_outbound,
}

pub record AgentInstanceConfig : Type 0 where
  pub name : String
  pub workspace : String

pub record ChannelInstanceConfig : Type 0 where
  pub name : String
  pub enabled : Bool
  pub binding_agent : String

-- Config, as far as routing reads it.
pub record Config : Type 0 where
  pub agents : List AgentInstanceConfig
  pub channels : List ChannelInstanceConfig

abbrev pub agent_named : String → AgentInstanceConfig → Bool
agent_named name agent = str_eq agent.name name

abbrev pub channel_named : String → ChannelInstanceConfig → Bool
channel_named name channel = str_eq channel.name name

unfoldable pub find_agent : Config → String → Option AgentInstanceConfig
find_agent c name = find_first (agent_named name) c.agents

unfoldable pub find_channel_instance : Config → String → Option ChannelInstanceConfig
find_channel_instance c name = find_first (channel_named name) c.channels

unfoldable pub default_agent_name : Config → String
default_agent_name c = elim c.agents [ [] ↦ "default" | agent ∷ _ ↦ agent.name ]

-- The agent that the channel instance of the message is bound to, if there is one to be found.
abbrev pub bound_agent : Config → InboundMessage → Option String
bound_agent c msg = elim (find_channel_instance c (effective_channel_instance msg)) [
  | none ↦ none
  | some channel ↦
      if not (empty channel.binding_agent) && is_some (find_agent c channel.binding_agent)
      then some channel.binding_agent
      else none
]

unfoldable pub resolve_agent_name : Config → InboundMessage → String
resolve_agent_name c msg =
    if not (empty msg.agent_name) && is_some (find_agent c msg.agent_name)
    then msg.agent_name
    else elim (bound_agent c msg) [ none ↦ default_agent_name c | some name ↦ name ]

-- The fields that the registry fills in where an agent or an interceptor left them empty.
abbrev pub fill_reply : InboundMessage → OutboundMessage → OutboundMessage
fill_reply msg out = record out {
  channel = or_else out.channel msg.channel;
  channel_instance = or_else out.channel_instance (effective_channel_instance msg);
  agent_name = or_else out.agent_name msg.agent_name;
  chat_id = or_else out.chat_id msg.chat_id;
}

abbrev pub no_agent_reply : InboundMessage → OutboundMessage
no_agent_reply msg = record {
  channel = msg.channel;
  channel_instance = effective_channel_instance msg;
  agent_name = msg.agent_name;
  chat_id = msg.chat_id;
  content = "No agent is configured to handle this message.";
  reply_to = "";
  media = [];
  metadata = [];
}

-- What the registry is given to call; `none` is an empty std::function. The interceptor may change
-- the message that it is handed, and answers a reply if it takes the message.
pub record Callees (S : Type 0) : Type 0 where
  pub agent : String → InboundMessage → S → S × OutboundMessage
  pub interceptor : Option (InboundMessage → S → S × InboundMessage × Option OutboundMessage)
  pub post_processor : Option (InboundMessage → OutboundMessage → S → S)

module _ {S : Type 0} where
  abbrev pub post_process : Callees S → InboundMessage → OutboundMessage → S → S × OutboundMessage
  post_process callees msg out s = elim callees.post_processor [
    | none ↦ (s, out)
    | some observe ↦ (observe msg out s, out)
  ]

  -- HandleInbound where no interceptor took the message. The agents are those of the configuration.
  abbrev pub dispatch : Config → Callees S → InboundMessage → S → S × OutboundMessage
  dispatch c callees msg s =
      let (s', out) = callees.agent msg.agent_name msg s in
      if is_some (find_agent c msg.agent_name)
      then post_process callees msg (fill_reply msg out) s'
      else (s, no_agent_reply msg)

  abbrev pub intercepted :
      Config → Callees S → S × InboundMessage × Option OutboundMessage → S × OutboundMessage
  intercepted c callees (s, msg, none) = dispatch c callees msg s
  intercepted c callees (s, msg, some out) = post_process callees msg (fill_reply msg out) s

  unfoldable pub handle_inbound : Config → Callees S → InboundMessage → S → S × OutboundMessage
  handle_inbound c callees msg s =
      let resolved : InboundMessage = record msg { agent_name = resolve_agent_name c msg } in
      elim callees.interceptor [
        | none ↦ dispatch c callees resolved s
        | some intercept ↦ intercepted c callees (intercept resolved s)
      ]
