-- ===== src/Agents.antt =====
-- src/agent: the agents, the sub-agents and the planner.
pub mod Context
pub mod Memory
pub mod Guardrail
pub mod Loop
pub mod Tools
pub mod Registry
pub mod Planner
pub mod Subagents
