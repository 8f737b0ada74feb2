-- ===== src/Session/History/Examples.antt =====
-- A session of five messages, for the theorems on its history.
use kabot.Base.{◌≤◌, String, List, [], ◌∷◌, drop}
use kabot.Session.Types.{SessionMessage}
use kabot.Session.History.{history_start}
use kabot.Session.History.Turns.{count_users, history_turns}

abbrev said : String → SessionMessage String
said role = record {
  role = role;
  content = "";
  timestamp = "";
  name = "";
  tool_call_id = "";
  tool_calls = [];
  usage_json = "";
}

abbrev talk : List (SessionMessage String)
talk = said "user" ∷ said "assistant" ∷ said "tool" ∷ said "user" ∷ said "assistant" ∷ []

history_turns_example : count_users (drop (history_start 3 talk) talk) ≤ 3
history_turns_example = history_turns 3 talk
