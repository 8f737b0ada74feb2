-- ===== src/Agents/Registry/Examples.antt =====
-- A configuration of two agents, and an agent that answers.
use kabot.Base.{ℕ, suc, ◌≡◌, refl, true, none, [], ◌∷◌}
use kabot.Bus.{InboundMessage}
use kabot.Agents.Registry.{Config, Callees, handle_inbound}

abbrev config : Config
config = record {
  agents =
      record { name = "main"; workspace = "/w" } ∷ record { name = "coder"; workspace = "/c" } ∷ [];
  channels = record { name = "lark"; enabled = true; binding_agent = "coder" } ∷ [];
}

abbrev asked : InboundMessage
asked = record {
  channel = "lark";
  channel_instance = "lark";
  agent_name = "nobody";
  sender_id = "u";
  chat_id = "42";
  content = "hello";
  media = [];
  metadata = [];
  timestamp = 0;
}

-- An agent that counts its messages and answers with their text.
abbrev echo : Callees ℕ
echo = record {
  agent = λ name msg n. (
    suc n,
    record {
      channel = "";
      channel_instance = "";
      agent_name = "";
      chat_id = "";
      content = msg.content;
      reply_to = "";
      media = [];
      metadata = [];
    },
  );
  interceptor = none;
  post_processor = none;
}

routed : (handle_inbound config echo asked 0).1.agent_name ≡ "coder"
unfolding handle_inbound kabot.Agents.Registry.find_agent kabot.Agents.Registry.resolve_agent_name
    kabot.Agents.Registry.find_channel_instance
routed = refl
