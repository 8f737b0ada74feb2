-- ===== src/Config/Valid/Errors.antt =====
-- When ValidateConfig of src/config/config_loader.cpp has no error about a part.
use text.Mathlib.Text.{starts_with}
use kabot.Base.{
  true, false, String, List, [], ◌++◌, ◌≡◌, refl, subst, ◌⊎◌, inl, inr, member, eq_iff, empty,
  is_some, arith, Bool-cases,
}
use kabot.Base.Int.{pos, ◌<ℤ◌, ◌≤ℤ◌}
use kabot.Config.Types.{
  AgentInstanceConfig, RelayManagedAgentConfig, ChannelInstanceConfig, Config, find_agent,
}
use kabot.Config.Valid.{
  agent_errors, channel_errors, identity_errors, connection_errors, relay_errors,
}
use kabot.Config.Valid.Named.{append-none}

abbrev pub GoodAgent : AgentInstanceConfig → Type 0
GoodAgent agent =
    (agent.settings.tool_profile ≡ "full") ⊎ (agent.settings.tool_profile ≡ "message_only")

abbrev pub GoodChannel : Config → ChannelInstanceConfig → Type 0
GoodChannel config channel =
    ((channel.type ≡ "telegram")
      ⊎ (channel.type ≡ "lark")
      ⊎ ((channel.type ≡ "qqbot")
          × (empty channel.qqbot.app_id ≡ false)
          × ((empty channel.qqbot.client_secret ≡ false) ⊎ (empty channel.qqbot.token ≡ false)))
      ⊎ ((channel.type ≡ "weixin") × (empty channel.weixin.account_id ≡ false)))
    × (empty channel.binding.agent ≡ false)
    × (is_some (find_agent config channel.binding.agent) ≡ true)

abbrev pub GoodIdentity : Config → RelayManagedAgentConfig → Type 0
GoodIdentity config a =
    (empty a.local_agent ≡ false)
    × (is_some (find_agent config a.local_agent) ≡ true)
    × (empty a.agent_id ≡ false)
    × (empty a.token ≡ false)
    × (empty a.host ≡ false)

abbrev pub GoodConnection : RelayManagedAgentConfig → Type 0
GoodConnection a =
    (starts_with a.path "/" ≡ true)
    × (pos 0 <ℤ a.port)
    × (pos 0 <ℤ a.heartbeat_interval_s)
    × (pos 0 <ℤ a.reconnect_initial_delay_ms)
    × (a.reconnect_initial_delay_ms ≤ℤ a.reconnect_max_delay_ms)
    × ((a.scheme ≡ "ws") ⊎ (a.scheme ≡ "wss"))

abbrev pub GoodManagedAgent : Config → RelayManagedAgentConfig → Type 0
GoodManagedAgent config a = GoodIdentity config a × GoodConnection a

pub agent_errors-none :
    (seen : List String) (agent : AgentInstanceConfig)
    → agent_errors seen agent ≡ []
    → (member agent.name seen ≡ false) × (empty agent.name ≡ false) × GoodAgent agent
unfolding agent_errors
agent_errors-none seen agent h = ground (
  arith,
  h,
  eq_iff agent.settings.tool_profile "full",
  eq_iff agent.settings.tool_profile "message_only",
)

pub GoodAgent-agent_errors :
    (seen : List String) (agent : AgentInstanceConfig)
    → member agent.name seen ≡ false
    → empty agent.name ≡ false
    → GoodAgent agent
    → agent_errors seen agent ≡ []
unfolding agent_errors
GoodAgent-agent_errors seen agent new named good = ground (
  arith,
  eq_iff agent.settings.tool_profile "full",
  eq_iff agent.settings.tool_profile "message_only",
)

pub channel_errors-none :
    (config : Config) (seen : List String) (channel : ChannelInstanceConfig)
    → channel_errors config seen channel ≡ []
    → (member channel.name seen ≡ false) × (empty channel.name ≡ false) × GoodChannel config channel
unfolding channel_errors
channel_errors-none config seen channel h = ground (
  arith,
  h,
  eq_iff channel.type "telegram",
  eq_iff channel.type "lark",
  eq_iff channel.type "qqbot",
  eq_iff channel.type "weixin",
)

pub GoodChannel-channel_errors :
    (config : Config) (seen : List String) (channel : ChannelInstanceConfig)
    → member channel.name seen ≡ false
    → empty channel.name ≡ false
    → GoodChannel config channel
    → channel_errors config seen channel ≡ []
unfolding channel_errors
GoodChannel-channel_errors config seen channel new named (typed, bound, found) = elim typed [
  | inl t ↦ simp (named, new, t, bound, found)
  | inr (inl t) ↦ simp (named, new, t, bound, found)
  | inr (inr (inl (t, id, inl secret))) ↦ simp (named, new, t, bound, found, id, secret)
  | inr (inr (inl (t, id, inr token))) ↦ elim (Bool-cases (empty channel.qqbot.client_secret)) [
    | inl e ↦ simp (named, new, t, bound, found, id, e, token)
    | inr e ↦ simp (named, new, t, bound, found, id, e)
  ]
  | inr (inr (inr (t, id))) ↦ simp (named, new, t, bound, found, id)
]

identity_errors-none :
    (config : Config) (seen : List String) (a : RelayManagedAgentConfig)
    → identity_errors config seen a ≡ []
    → (member a.name seen ≡ false) × GoodIdentity config a
unfolding identity_errors
identity_errors-none config seen a h = ground (arith, h)

connection_errors-none : (a : RelayManagedAgentConfig) → connection_errors a ≡ [] → GoodConnection a
unfolding connection_errors
connection_errors-none a h = ground (arith, h, eq_iff a.scheme "ws", eq_iff a.scheme "wss")

pub relay_errors-none :
    (config : Config) (seen : List String) (a : RelayManagedAgentConfig)
    → relay_errors config seen a ≡ []
    → (member a.name seen ≡ false) × (empty a.name ≡ false) × GoodManagedAgent config a
unfolding relay_errors
relay_errors-none config seen a h = elim (Bool-cases (empty a.name)) [
  | inl e ↦ absurd (named e h)
  | inr e ↦
      let (h1, h2) =
        append-none (identity_errors config seen a) (connection_errors a) (parts e h) in
      let (new, good) = identity_errors-none config seen a h1 in
      (new, e, (good, connection_errors-none a h2))
]
  where
    named : empty a.name ≡ true → relay_errors config seen a ≡ [] → ⊥
    named e h' = ground (arith, h', e)

    parts :
        empty a.name ≡ false
        → relay_errors config seen a ≡ []
        → identity_errors config seen a ++ connection_errors a ≡ []
    parts e h' = ground (arith, h', e)

GoodIdentity-identity_errors :
    (config : Config) (seen : List String) (a : RelayManagedAgentConfig)
    → member a.name seen ≡ false
    → GoodIdentity config a
    → identity_errors config seen a ≡ []
unfolding identity_errors
GoodIdentity-identity_errors config seen a new good = ground arith

a_path : (s : String) → starts_with s "/" ≡ true → empty s ≡ false
a_path s h = elim (Bool-cases (empty s)) [
  | inr e ↦ e
  | inl e ↦ absurd (no_path (subst (λ p. starts_with p "/" ≡ true) ((eq_iff s "").0 e) h))
]
  where
    no_path : starts_with "" "/" ≡ true → ⊥
    no_path h' = cc

GoodConnection-connection_errors :
    (a : RelayManagedAgentConfig) → GoodConnection a → connection_errors a ≡ []
unfolding connection_errors
GoodConnection-connection_errors a good =
    ground (arith, a_path a.path, eq_iff a.scheme "ws", eq_iff a.scheme "wss")

pub GoodManagedAgent-relay_errors :
    (config : Config) (seen : List String) (a : RelayManagedAgentConfig)
    → member a.name seen ≡ false
    → empty a.name ≡ false
    → GoodManagedAgent config a
    → relay_errors config seen a ≡ []
unfolding relay_errors
GoodManagedAgent-relay_errors config seen a new named (identity, connection) =
    rw
      (
        named,
        GoodIdentity-identity_errors config seen a new identity,
        GoodConnection-connection_errors a connection,
      )
      refl
