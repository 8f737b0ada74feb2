-- ===== src/Channels.antt =====
-- src/channels/channel_base.cpp and the sending of src/channels/channel_manager.cpp. What a channel's
-- Send returns comes from outside: `send n` is the result of the n-th call. Log lines are left out.
pub mod Allow
pub mod Sending
mod Examples
use Prim.Native.Char.{Char, code}
use Prim.Native.String
use kabot.Base.{
  ℕ, zero, suc, ◌+◌, ◌-◌, Bool, true, false, not, ◌&&◌, ◌||◌, String, Option, none, some, List, [],
  ◌∷◌, any, member, is_some, ltb, leb, ◌==◌, str_eq, empty, if◌then◌else◌,
}
use kabot.Base.Dict.{Dict, lookup}
use kabot.Bus.{InboundMessage, OutboundMessage, MessageBus, publish_inbound, or_else}

abbrev pub is_pipe : Char → Bool
is_pipe c = code c == 124

unfoldable pub has_pipe : String → Bool
has_pipe String.[] = false
has_pipe (String.◌∷◌ c s) = is_pipe c || has_pipe s

abbrev pub part_and : String → List String → List String
part_and part parts = if empty part then parts else part ∷ parts

-- The characters up to the first `|`, and the parts behind it that are not empty.
unfoldable pub split_parts : String → String × List String
split_parts String.[] = ("", [])
split_parts (String.◌∷◌ c s) =
    let (part, parts) = split_parts s in
    if is_pipe c then ("", part_and part parts) else (String.◌∷◌ c part, parts)

-- The parts that std::getline reads up to each `|`, without the empty ones.
unfoldable pub parts : String → List String
unfolding split_parts
parts s = let (part, rest) = split_parts s in part_and part rest

abbrev pub nothing_listed : List String → Bool
nothing_listed [] = true
nothing_listed (x ∷ xs) = false

unfoldable pub is_allowed : List String → String → Bool
is_allowed allow_from sender_id =
    if nothing_listed allow_from
    then true
    else if member "*" allow_from
    then true
    else if member sender_id allow_from
    then true
    else if has_pipe sender_id
    then any (λ part. member part allow_from) (parts sender_id)
    else false

-- ChannelBase, without its subclass.
pub record Channel : Type 0 where
  pub name : String
  pub allow_from : List String
  pub binding_agent : String

module _ {Callback : Type 0} where
  unfoldable pub handle_message :
      Channel
      → MessageBus Callback
      → String
      → String
      → String
      → List String
      → Dict String
      → ℕ
      → MessageBus Callback
  handle_message channel bus sender_id chat_id content media metadata now =
      if not (is_allowed channel.allow_from sender_id)
        && not (is_allowed channel.allow_from chat_id)
      then bus
      else publish_inbound bus (record {
        channel = channel.name;
        channel_instance = channel.name;
        agent_name = channel.binding_agent;
        sender_id = sender_id;
        chat_id = chat_id;
        content = content;
        media = media;
        metadata = metadata;
        timestamp = now;
      })

abbrev max_send_attempts : ℕ
max_send_attempts = 3

unfoldable pub is_typing : OutboundMessage → Bool
is_typing msg = elim (lookup "action" msg.metadata) [
  | none ↦ false
  | some action ↦ str_eq action "typing"
]

unfoldable pub max_attempts : OutboundMessage → ℕ
max_attempts msg = if is_typing msg then 1 else max_send_attempts

-- The attempts from `attempt` on, `left` of them: whether one succeeded, and how many calls of Send
-- were made.
unfoldable pub send_loop : (ℕ → Bool) → ℕ → ℕ → Bool × ℕ
send_loop send attempt zero = (false, 0)
send_loop send attempt (suc left) =
    let rest = send_loop send (suc attempt) left in
    if send attempt then (true, 1) else (rest.0, suc rest.1)

unfoldable pub send_with_retry : List String → (String → ℕ → Bool) → OutboundMessage → Bool × ℕ
send_with_retry channels send msg =
    if empty msg.content && nothing_listed msg.media
    then (true, 0)
    else if member (or_else msg.channel_instance msg.channel) channels
    then send_loop (send (or_else msg.channel_instance msg.channel)) 1 (max_attempts msg)
    else (false, 0)
