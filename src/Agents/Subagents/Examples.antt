-- ===== src/Agents/Subagents/Examples.antt =====
-- A background sub-agent with three tools in its pool, and a task that is aborted.
use kabot.Base.{true, String, List, [], ◌∷◌, ◌≡◌, refl}
use kabot.Agents.Subagents.{
  AgentDefinition, ToolDefinition, no_names, async_whitelist, system_tools, resolve_agent_tools,
  SubagentTaskManager, register_task, get_task, perform, marks_aborted, written,
}
use kabot.Agents.Subagents.Tools.{has_tool}

abbrev explorer : AgentDefinition
explorer = record { agent_type = "explore"; tools = []; disallowed_tools = "bash" ∷ [] }

abbrev tool : String → ToolDefinition
tool name = record { name = name; description = "" }

abbrev pool : List ToolDefinition
pool = tool "grep" ∷ tool "bash" ∷ tool "message" ∷ []

grep_kept : has_tool "grep" (resolve_agent_tools pool explorer true []) ≡ true
unfolding resolve_agent_tools kabot.Agents.Subagents.keeps_tool
grep_kept = refl
