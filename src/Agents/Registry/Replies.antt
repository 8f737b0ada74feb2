-- ===== src/Agents/Registry/Replies.antt =====
-- The replies of src/agent/agent_registry.cpp.
use mathlib.Core.Bool.{false≢true}
use kabot.Base.{
  true, String, none, ◌≡◌, sym, ◌∙◌, empty, inl, inr, Bool-cases, arith, if◌then◌else◌, is_some,
}
use kabot.Bus.{InboundMessage, OutboundMessage, effective_channel_instance, or_else}
use kabot.Agents.Registry.{
  Config, Callees, handle_inbound, resolve_agent_name, find_agent, fill_reply, no_agent_reply,
}

or_else-empty : (x t : String) → empty (or_else x t) ≡ true → empty t ≡ true
or_else-empty x t h = elim (Bool-cases (empty x)) [
  | inl e ↦ rw e at h
  | inr e ↦ absurd (false≢true (sym e ∙ (rw e at h)))
]

module _ {S : Type 0} (c : Config) (callees : Callees S) where
  reply_lem :
      (msg : InboundMessage) (s : S)
      → callees.interceptor ≡ none
      → (handle_inbound c callees msg s).1 ≡ (
          let resolved : InboundMessage = record msg { agent_name = resolve_agent_name c msg } in
          if is_some (find_agent c (resolve_agent_name c msg))
          then fill_reply resolved (callees.agent (resolve_agent_name c msg) resolved s).1
          else no_agent_reply resolved)
  unfolding handle_inbound
  reply_lem msg s e = ground arith

  -- Without an interceptor the address of a reply is filled in: the chat, the channel or the
  -- instance is empty only if it is empty for the message, and the agent's name only if the
  -- routing gives an empty one.
  pub handle_inbound_address :
      (msg : InboundMessage) (s : S)
      → callees.interceptor ≡ none
      → (empty (handle_inbound c callees msg s).1.chat_id ≡ true → empty msg.chat_id ≡ true)
        × (empty (handle_inbound c callees msg s).1.channel ≡ true → empty msg.channel ≡ true)
        × (empty (handle_inbound c callees msg s).1.channel_instance ≡ true
            → empty (effective_channel_instance msg) ≡ true)
        × (empty (handle_inbound c callees msg s).1.agent_name ≡ true
            → empty (resolve_agent_name c msg) ≡ true)
  unfolding handle_inbound
  handle_inbound_address msg s e =
      let resolved : InboundMessage = record msg { agent_name = resolve_agent_name c msg } in
      let out : OutboundMessage = (callees.agent (resolve_agent_name c msg) resolved s).1 in
      rw (reply_lem msg s e)
        (elim (Bool-cases (is_some (find_agent c (resolve_agent_name c msg)))) [
          | inl f ↦ rw f (
            or_else-empty out.chat_id msg.chat_id,
            or_else-empty out.channel msg.channel,
            or_else-empty out.channel_instance (effective_channel_instance msg),
            or_else-empty out.agent_name (resolve_agent_name c msg),
          )
          | inr f ↦ rw f (λ h. h, λ h. h, λ h. h, λ h. h)
        ])
