-- ===== src/Bus.antt =====
-- src/bus/events.hpp and src/bus/message_bus.{hpp,cpp}: the messages between channels and agents,
-- and the two queues that carry them. Locks and wake-ups make each operation one step; a wait that
-- is not over yet is `none`, and a wait that times out is `none` too. The metadata map is the list
-- of its entries and a time point is a number.
pub mod Queues
mod Examples
use kabot.Base.{
  ℕ, Bool, true, false, String, Option, none, some, List, [], ◌∷◌, ◌++◌, length, empty,
  if◌then◌else◌,
}
use kabot.Base.Dict.{Dict, lookup, insert}
use Prim.Native.String

pub record InboundMessage : Type 0 where
  pub channel : String
  pub channel_instance : String
  pub agent_name : String
  pub sender_id : String
  pub chat_id : String
  pub content : String
  pub media : List String
  pub metadata : Dict String
  pub timestamp : ℕ

pub record OutboundMessage : Type 0 where
  pub channel : String
  pub channel_instance : String
  pub agent_name : String
  pub chat_id : String
  pub content : String
  pub reply_to : String
  pub media : List String
  pub metadata : Dict String

abbrev pub or_else : String → String → String
or_else s t = if empty s then t else s

-- EffectiveChannelInstance, which several files define alike.
abbrev pub effective_channel_instance : InboundMessage → String
effective_channel_instance msg = or_else msg.channel_instance msg.channel

infixr 65 ◌<+>◌
abbrev pub ◌<+>◌ : String → String → String
s <+> t = String.◌++◌ s t

unfoldable pub session_key : InboundMessage → String
session_key msg =
    effective_channel_instance msg
    <+> ":"
    <+> or_else msg.agent_name "default"
    <+> ":"
    <+> msg.chat_id

-- A callback returns nothing; what it does is outside the bus.
pub record MessageBus (Callback : Type 0) : Type 0 where
  pub inbound : List InboundMessage
  pub outbound : List OutboundMessage
  pub subscribers : Dict (List Callback)
  pub running : Bool

module _ {Callback : Type 0} where
  unfoldable pub new_bus : MessageBus Callback
  new_bus = record { inbound = []; outbound = []; subscribers = []; running = false }

  unfoldable pub publish_inbound : MessageBus Callback → InboundMessage → MessageBus Callback
  publish_inbound b msg = record b { inbound = b.inbound ++ msg ∷ [] }

  unfoldable pub publish_outbound : MessageBus Callback → OutboundMessage → MessageBus Callback
  publish_outbound b msg = record b { outbound = b.outbound ++ msg ∷ [] }

  -- ConsumeInbound and TryConsumeInbound, at the moment that the wait ends.
  unfoldable pub try_consume_inbound :
      MessageBus Callback → Option (InboundMessage × MessageBus Callback)
  try_consume_inbound b = elim b.inbound [
    | [] ↦ none
    | msg ∷ rest ↦ some (msg, record b { inbound = rest })
  ]

  unfoldable pub try_consume_outbound :
      MessageBus Callback → Option (OutboundMessage × MessageBus Callback)
  try_consume_outbound b = elim b.outbound [
    | [] ↦ none
    | msg ∷ rest ↦ some (msg, record b { outbound = rest })
  ]

  unfoldable pub inbound_size : MessageBus Callback → ℕ
  inbound_size b = length b.inbound

  unfoldable pub outbound_size : MessageBus Callback → ℕ
  outbound_size b = length b.outbound

  abbrev pub callbacks_of : MessageBus Callback → String → List Callback
  callbacks_of b channel = elim (lookup channel b.subscribers) [ none ↦ [] | some cs ↦ cs ]

  unfoldable pub subscribe_outbound : MessageBus Callback → String → Callback → MessageBus Callback
  subscribe_outbound b channel callback = record b {
    subscribers = insert channel (callbacks_of b channel ++ callback ∷ []) b.subscribers;
  }

  -- One round of the loop of DispatchOutbound: the message, and the callbacks that are called on it,
  -- in their order; `none` if the wait timed out.
  unfoldable pub dispatch_round :
      MessageBus Callback → Option ((OutboundMessage × List Callback) × MessageBus Callback)
  unfolding try_consume_outbound
  dispatch_round b = elim (try_consume_outbound b) [
    | none ↦ none
    | some (msg, b') ↦ some ((msg, callbacks_of b' msg.channel), b')
  ]

  unfoldable pub stop : MessageBus Callback → MessageBus Callback
  stop b = record b { running = false }
