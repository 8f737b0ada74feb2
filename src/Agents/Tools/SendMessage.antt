-- ===== src/Agents/Tools/SendMessage.antt =====
-- SendMessageTool of src/agent/tools/message.cpp. The callback and the observer act on a state `S`; an
-- empty one is `none`.
use Prim.Native.Char.{code}
use kabot.Base.{
  Bool, not, ◌&&◌, ◌||◌, ◌==◌, String, Option, none, some, List, [], ◌∷◌, ◌≡◌, arith, empty,
  if◌then◌else◌, Bool-cases, inl, inr,
}
use kabot.Base.Dict.{Dict, lookup}
use kabot.Bus.{OutboundMessage}
use kabot.Agents.Context.{none_of}
use kabot.Agents.Loop.Process.{is_blank, skip_blanks}

-- The tokens between commas.
unfoldable pub tokens : String → String × List String
tokens String.[] = ("", [])
tokens (String.◌∷◌ c s) =
    let (token, rest) = tokens s in
    if code c == 44 then ("", token ∷ rest) else (String.◌∷◌ c token, rest)

unfoldable pub drop_blanks_behind : String → String
drop_blanks_behind String.[] = ""
drop_blanks_behind (String.◌∷◌ c s) =
    let rest = drop_blanks_behind s in if is_blank c && empty rest then "" else String.◌∷◌ c rest

unfoldable pub trimmed_tokens : List String → List String
unfolding skip_blanks drop_blanks_behind
trimmed_tokens [] = []
trimmed_tokens (token ∷ rest) =
    let others = trimmed_tokens rest in
    let trimmed = drop_blanks_behind (skip_blanks token) in
    if empty trimmed then others else trimmed ∷ others

unfoldable pub split_media : String → List String
unfolding tokens trimmed_tokens
split_media media_raw = let (token, rest) = tokens media_raw in trimmed_tokens (token ∷ rest)

abbrev pub get_param : Dict String → String → String
get_param params name = elim (lookup name params) [ none ↦ "" | some value ↦ value ]

pub record SendMessageTool (S : Type 0) : Type 0 where
  pub callback : Option (OutboundMessage → S → S)
  pub observer : Option (OutboundMessage → S → S)
  pub default_channel : String
  pub default_chat_id : String

module _ {S : Type 0} (tool : SendMessageTool S) where
  -- The message that the parameters describe.
  unfoldable pub message_of : Dict String → OutboundMessage
  unfolding split_media
  message_of params =
      let requested_channel = get_param params "channel" in
      let requested_chat_id = get_param params "chat_id" in
      let explicit = not (empty requested_channel) && not (empty requested_chat_id) in
      record {
        channel = if explicit then requested_channel else tool.default_channel;
        channel_instance = "";
        agent_name = "";
        chat_id = if explicit then requested_chat_id else tool.default_chat_id;
        content = get_param params "content";
        reply_to = "";
        media = split_media (get_param params "media");
        metadata = [];
      }

  abbrev pub observed : OutboundMessage → S → S
  observed msg s = elim tool.observer [ none ↦ s | some observe ↦ observe msg s ]

  unfoldable pub send : OutboundMessage → S → S × String
  send msg s =
      if empty msg.content && none_of msg.media
      then (s, "Error: content or media is required")
      else if empty msg.channel || empty msg.chat_id
      then (s, "Error: no target channel/chat_id")
      else elim tool.callback [
        | none ↦ (s, "Error: message callback not configured")
        | some callback ↦ (observed msg (callback msg s), "Message sent")
      ]

  unfoldable pub execute : Dict String → S → S × String
  unfolding message_of send
  execute params s = send (message_of params) s

  -- What a message needs to be sent.
  abbrev pub is_sendable : OutboundMessage → Bool
  is_sendable msg =
      (not (empty msg.content) || not (none_of msg.media))
      && not (empty msg.channel)
      && not (empty msg.chat_id)

  send-is_sendable :
      (callback : OutboundMessage → S → S) (msg : OutboundMessage) (s : S)
      → tool.callback ≡ some callback
      → (error : String) × (send msg s ≡ (
          if is_sendable msg then (observed msg (callback msg s), "Message sent") else (s, error)))
  unfolding send
  send-is_sendable callback msg s c = elim (Bool-cases (empty msg.content && none_of msg.media)) [
    | inl e ↦ ("Error: content or media is required", ground arith)
    | inr e ↦ elim (Bool-cases (empty msg.channel || empty msg.chat_id)) [
      | inl f ↦ ("Error: no target channel/chat_id", ground arith)
      | inr f ↦ ("", ground arith)
    ]
  ]

  -- With a callback, the tool hands the described message to the callback and to the observer, once each, exactly when
  -- it has a content or media and a full target; otherwise it answers an error and does nothing.
  pub execute-is_sendable :
      (callback : OutboundMessage → S → S) (params : Dict String) (s : S)
      → tool.callback ≡ some callback
      → (error : String) × (execute params s ≡ (
          if is_sendable (message_of params)
          then (observed (message_of params) (callback (message_of params) s), "Message sent")
          else (s, error)))
  unfolding execute
  execute-is_sendable callback params s c = send-is_sendable callback (message_of params) s c
