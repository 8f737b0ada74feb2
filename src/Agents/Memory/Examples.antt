-- ===== src/Agents/Memory/Examples.antt =====
-- An answer with a block for the memory, as src/agent/agent_loop.cpp reads it.
use kabot.Base.{String, ◌≡◌, refl}
use kabot.Agents.Memory.{extract_memory_block}

abbrev answer : String
answer = "Done. <kabot_memory>likes tea</KABOT_memory> </kabot_memory>"

remembered : extract_memory_block "<kabot_memory> likes tea </kabot_memory>" ≡ "likes tea"
unfolding extract_memory_block kabot.Agents.Memory.behind_prefix
remembered = refl
