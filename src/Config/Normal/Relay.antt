-- ===== src/Config/Normal/Relay.antt =====
-- What NormalizeConfig of src/config/config_loader.cpp makes of the managed agents of the relay server.
use text.Mathlib.Text.{starts_with}
use text.Mathlib.TextPositions.{starts_with-append}
use kabot.Base.{
  Bool, true, false, not, ◌&&◌, ◌||◌, String, List, ◌≡◌, refl, str_eq, empty, All, All-map,
  if◌then◌else◌, Bool-cases, inl, inr,
}
use kabot.Bus.{or_else}
use kabot.Config.Types.{
  AgentDefaults, AgentInstanceConfig, RelayConnectionDefaults, RelayManagedAgentConfig, Config,
}
use kabot.Config.Reading.{Numbers}
use kabot.Config.Normal.{
  rooted, normalize_relay_defaults, normalize_managed_agent, normalize_agents, normalize_relay,
  normalize_config,
}

rooted-slash :
    (default_path path : String)
    → starts_with default_path "/" ≡ true
    → starts_with (rooted default_path path) "/" ≡ true
unfolding rooted
rooted-slash default_path path h = elim (Bool-cases (empty path)) [
  | inl e ↦ rw e h
  | inr e ↦ elim (Bool-cases (starts_with path "/")) [
    | inl s ↦ rw (e, s) s
    | inr s ↦ rw (e, s) (starts_with-append "/" path)
  ]
]

-- A managed agent that the relay manager can connect: its target is a path, and the scheme says whether TLS is used.
pub record IsConnectable (a : RelayManagedAgentConfig) : Type 0 where
  pub slash : starts_with a.path "/" ≡ true
  pub scheme : empty a.scheme ≡ false
  pub tls : str_eq a.scheme "wss" ≡ a.use_tls

default_scheme : (d : RelayConnectionDefaults) → empty (normalize_relay_defaults d).scheme ≡ false
unfolding normalize_relay_defaults
default_scheme d = elim (Bool-cases d.use_tls) [
  | inl e ↦ rw e refl
  | inr e ↦ elim (Bool-cases (empty d.scheme)) [ inl f ↦ rw (e, f) refl | inr f ↦ rw (e, f) f ]
]

some_scheme : (own other : String) → empty other ≡ false → empty (or_else own other) ≡ false
some_scheme own other h = elim (Bool-cases (empty own)) [ inl f ↦ rw f h | inr f ↦ rw f f ]

-- The scheme in line with the use of TLS.
abbrev scheme_of : Bool → String → String
scheme_of tls s =
    if tls && not (str_eq s "wss") then "wss" else if not tls && empty s then "ws" else s

scheme_of-some : (tls : Bool) (s : String) → empty s ≡ false → empty (scheme_of tls s) ≡ false
scheme_of-some true s h = elim (Bool-cases (str_eq s "wss")) [ inl e ↦ rw e h | inr e ↦ rw e refl ]
scheme_of-some false s h = rw h h

scheme_of-tls :
    (tls : Bool) (s : String)
    → str_eq (scheme_of (tls || str_eq s "wss") s) "wss" ≡ tls || str_eq s "wss"
scheme_of-tls true s = elim (Bool-cases (str_eq s "wss")) [ inl e ↦ rw e e | inr e ↦ rw e refl ]
scheme_of-tls false s = elim (Bool-cases (str_eq s "wss")) [
  | inl e ↦ rw e e
  | inr e ↦ elim (Bool-cases (empty s)) [ inl f ↦ rw (e, f) refl | inr f ↦ rw (e, f) e ]
]

normalize_managed_agent-IsConnectable :
    (agents : List AgentInstanceConfig) (d : RelayConnectionDefaults) (a : RelayManagedAgentConfig)
    → IsConnectable (normalize_managed_agent agents (normalize_relay_defaults d) a)
unfolding normalize_managed_agent
normalize_managed_agent-IsConnectable agents d a =
    let named : empty (or_else a.scheme (normalize_relay_defaults d).scheme) ≡ false =
      some_scheme a.scheme (normalize_relay_defaults d).scheme (default_scheme d) in
    record {
      slash = rooted-slash _ a.path (default_path d);
      scheme = scheme_of-some _ (or_else a.scheme (normalize_relay_defaults d).scheme) named;
      tls =
          scheme_of-tls (a.use_tls || (normalize_relay_defaults d).use_tls)
            (or_else a.scheme (normalize_relay_defaults d).scheme);
    }
  where
    default_path :
        (d' : RelayConnectionDefaults) → starts_with (normalize_relay_defaults d').path "/" ≡ true
    default_path d' = unfold normalize_relay_defaults in rooted-slash "/ws/agent" d'.path refl

-- After NormalizeConfig every managed agent can be connected, whatever the settings are: its path starts
-- with a slash, it has a scheme, and the scheme is "wss" exactly when TLS is used.
pub normalize_config-IsConnectable :
    (numbers : Numbers) (config : Config) (previous : AgentDefaults)
    → All IsConnectable (normalize_config numbers config previous).relay.managed_agents
unfolding normalize_config normalize_relay
normalize_config-IsConnectable numbers config previous =
    All-map IsConnectable _ config.relay.managed_agents (
      normalize_managed_agent-IsConnectable
        (normalize_agents numbers previous config.agents).instances config.relay.defaults)
