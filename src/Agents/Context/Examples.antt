-- ===== src/Agents/Context/Examples.antt =====
-- Conversations for src/agent/context_builder.cpp: a request that a tool call answered.
use kabot.Base.{arith, ℕ, false, String, List, [], ◌∷◌, ◌++◌, ◌≡◌, refl, any, keep, take, drop}
use kabot.Agents.Context.{
  Message, plain, has_role, tool_use_ids, pair_results, coalesce, real_messages, protected_start,
  project_messages,
}
use kabot.Agents.Context.Projection.{project_messages-called}
use kabot.Agents.Context.Kept.{project_messages_lem}

abbrev to_string : ℕ → String
to_string n = "n"

abbrev asked : Message
asked = record (plain "assistant" "") {
  tool_calls = record { id = "c1"; name = "list_dir"; arguments = [] } ∷ [];
}

abbrev talk : List Message
talk = plain "system" "You are kabot." ∷ plain "user" "What is here?" ∷ asked ∷ []

project_messages-called_example : any (has_role "user") (project_messages to_string talk) ≡ false
project_messages-called_example =
    project_messages-called to_string talk
      (plain "system" "You are kabot." ∷ plain "user" "What is here?" ∷ []) [] asked refl
      (omega arith) refl refl refl

project_messages_lem_example :
    project_messages to_string talk
    ≡ coalesce (
        pair_results (
          keep
            (has_role "system")
            (take (protected_start (real_messages talk)) (real_messages talk))
          ++ drop (protected_start (real_messages talk)) (real_messages talk)))
project_messages_lem_example = project_messages_lem to_string talk refl
