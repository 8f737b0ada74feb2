-- ===== src/Agents/Subagents/Tools.antt =====
-- Which tools a sub-agent is given: ResolveAgentTools of src/agent/subagent/subagent_tool_filter.cpp.
use kabot.Base.{
  Bool, true, false, not, ◌&&◌, ◌||◌, String, List, [], ◌∷◌, ◌≡◌, refl, sym, ◌∙◌, any, member,
  arith, str_eq, eq_iff, if◌then◌else◌, Bool-cases,
}
use kabot.Agents.Subagents.{
  AgentDefinition, ToolDefinition, no_names, async_whitelist, system_tools, keeps_tool,
  resolve_agent_tools,
}

abbrev pub has_tool : String → List ToolDefinition → Bool
has_tool name pool = any (λ (tool : ToolDefinition). str_eq tool.name name) pool

has_tool-resolve :
    (pool : List ToolDefinition) (agent : AgentDefinition) (is_async : Bool)
    (allowed_tools : List String) (name : String)
    → has_tool name (resolve_agent_tools pool agent is_async allowed_tools)
      ≡ has_tool name pool && keeps_tool agent is_async allowed_tools name
unfolding resolve_agent_tools
has_tool-resolve [] agent is_async allowed_tools name = ground arith
has_tool-resolve (tool ∷ pool) agent is_async allowed_tools name = ground (
  arith,
  has_tool-resolve pool agent is_async allowed_tools name,
  eq_iff tool.name name,
  Bool-cases (keeps_tool agent is_async allowed_tools name),
)

disallowed_none :
    (names : List String) (name : String) → no_names names ≡ true → member name names ≡ false
disallowed_none [] name h = refl
disallowed_none (x ∷ xs) name h = ground (arith, h)

both_true : (a b : Bool) → a && b ≡ true → (a ≡ true) × (b ≡ true)
both_true a b h = ground (arith, h)

passed :
    (disallows disallowed lists wildcard listed is_async system white limits limited : Bool)
    → (if not disallows && disallowed
        then false
        else if not lists && not wildcard && not listed
        then false
        else if is_async && (not system && not white) && (lists || not listed)
        then false
        else if not limits && not limited
        then false
        else true)
      ≡ true
    → (disallows ≡ true → disallowed ≡ false)
    → (disallowed ≡ false)
      × (lists || wildcard || listed ≡ true)
      × (limits || limited ≡ true)
      × (is_async ≡ true → system || white || listed ≡ true)
passed disallows disallowed lists wildcard listed is_async system white limits limited h g =
    ground (arith, h, g)

-- A sub-agent is given a tool only if the pool has it, the definition does not disallow it, the list
-- of the definition is empty or has it or the wildcard, and the caller's list is empty or has it; in
-- the background it is then a system tool, one of the white list, or named by the definition.
pub resolve_agent_tools_lem :
    (pool : List ToolDefinition) (agent : AgentDefinition) (is_async : Bool)
    (allowed_tools : List String) (name : String)
    → has_tool name (resolve_agent_tools pool agent is_async allowed_tools) ≡ true
    → (has_tool name pool ≡ true)
      × (member name agent.disallowed_tools ≡ false)
      × (no_names agent.tools || member "*" agent.tools || member name agent.tools ≡ true)
      × (no_names allowed_tools || member name allowed_tools ≡ true)
      × (is_async ≡ true
          → member name system_tools || member name async_whitelist || member name agent.tools
            ≡ true)
unfolding keeps_tool
resolve_agent_tools_lem pool agent is_async allowed_tools name h =
    let both : has_tool name pool && keeps_tool agent is_async allowed_tools name ≡ true =
      sym (has_tool-resolve pool agent is_async allowed_tools name) ∙ h in
    let split =
      both_true (has_tool name pool) (keeps_tool agent is_async allowed_tools name) both in
    let (unforbidden, named, permitted, background) =
      passed (no_names agent.disallowed_tools) (member name agent.disallowed_tools)
        (no_names agent.tools) (member "*" agent.tools) (member name agent.tools) is_async
        (member name system_tools) (member name async_whitelist) (no_names allowed_tools)
        (member name allowed_tools) split.1 (disallowed_none agent.disallowed_tools name) in
    (split.0, unforbidden, named, permitted, background)
