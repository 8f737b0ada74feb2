-- ===== src/Bus/Examples.antt =====
-- A bus with one message waiting, for the theorems on the queues.
use kabot.Base.{true, String, List, [], ◌∷◌, ◌++◌, ◌≡◌}
use kabot.Bus.{InboundMessage, OutboundMessage}
use kabot.Bus.Queues.{
  BusStep, publishes_inbound, consumes_inbound, publishes_outbound, consumes_outbound, published_in,
  published_out, Run, steps, steps_fifo,
}

abbrev asked : String → InboundMessage
asked content = record {
  channel = "lark";
  channel_instance = "lark";
  agent_name = "";
  sender_id = "u";
  chat_id = "42";
  content = content;
  media = [];
  metadata = [];
  timestamp = 0;
}

abbrev answered : OutboundMessage
answered = record {
  channel = "lark";
  channel_instance = "lark";
  agent_name = "";
  chat_id = "42";
  content = "done";
  reply_to = "";
  media = [];
  metadata = [];
}

abbrev waiting : Run String
waiting = record {
  bus = record {
    inbound = asked "one" ∷ [];
    outbound = [];
    subscribers = ("lark", "first" ∷ []) ∷ [];
    running = true;
  };
  got_in = [];
  got_out = [];
}

abbrev traffic : List BusStep
traffic =
    publishes_inbound (asked "two")
    ∷ consumes_inbound
    ∷ publishes_outbound answered
    ∷ consumes_outbound
    ∷ []

steps_fifo_example :
    ((steps waiting traffic).got_in ++ (steps waiting traffic).bus.inbound
      ≡ (waiting.got_in ++ waiting.bus.inbound) ++ published_in traffic)
    × ((steps waiting traffic).got_out ++ (steps waiting traffic).bus.outbound
        ≡ (waiting.got_out ++ waiting.bus.outbound) ++ published_out traffic)
steps_fifo_example = steps_fifo waiting traffic
