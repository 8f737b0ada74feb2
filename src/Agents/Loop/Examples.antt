-- ===== src/Agents/Loop/Examples.antt =====
-- A world for src/agent/agent_loop.cpp whose provider reads a file, edits it, edits another one that
-- nobody read, and then answers; its state counts the calls of the provider.
use kabot.Base.{
  ℕ, suc, ◌+◌, ◌≤◌, true, false, String, none, some, List, [], ◌∷◌, ◌≡◌, refl, ◌==◌, if◌then◌else◌,
}
use kabot.Base.Dict.{lookup}
use kabot.Session.Types.{Session, new_session, add_pending_notification}
use kabot.Agents.Context.{ToolCallRequest, plain}
use kabot.Agents.Loop.{World, LlmResponse, Turn, run_calls, loop}
use kabot.Agents.Loop.Calls.{logged}
use kabot.Agents.Loop.Edits.{edits_follow_reads}
use kabot.Agents.Loop.Edits.Rounds.{loop-edits_follow_reads}
use kabot.Agents.Loop.Bounds.{chats, loop-chats}
use kabot.Agents.Loop.Results.{Entered, run_calls-Entered}
use kabot.Agents.Loop.Process.{start_turn}

abbrev call : String → String → ToolCallRequest
call name path = record { id = name; name = name; arguments = ("path", path) ∷ [] }

abbrev says : String → List ToolCallRequest → LlmResponse
says content tool_calls = record { content = content; tool_calls = tool_calls; usage = [] }

abbrev turns : ℕ → LlmResponse
turns n =
    if n == 0
    then says "" (call "read_file" "a.txt" ∷ [])
    else if n == 1
    then says "" (call "edit_file" "a.txt" ∷ call "edit_file" "b.txt" ∷ [])
    else says "Done." []

abbrev world : World ℕ
world = record {
  chat = λ messages n. (suc n, some (turns n));
  set_session_key = λ key n. n;
  execute = λ tool n. (n, some "ok");
  is_cancelled = λ n. false;
  to_string = λ n. "n";
  dump_usage = λ usage. "";
  now = "2026-01-01T00:00:00Z";
}

abbrev turn : Turn
turn =
    start_turn (plain "system" "You are kabot." ∷ plain "user" "Edit a.txt" ∷ [])
      (new_session ToolCallRequest "cli:default:1" "2026-01-01T00:00:00Z")

loop-edits_follow_reads_example :
    edits_follow_reads turn.session.read_file_paths
      (loop (logged world) 3 true "Edit a.txt" turn (0, [])).0.1
    ≡ true
loop-edits_follow_reads_example = loop-edits_follow_reads world 3 true "Edit a.txt" turn 0

loop-chats_example : chats (loop (logged world) 3 true "Edit a.txt" turn (0, [])).0.1 ≤ 3 + chats []
loop-chats_example = loop-chats world 3 true "Edit a.txt" turn 0 []

abbrev calls : List ToolCallRequest
calls = call "read_file" "a.txt" ∷ call "edit_file" "b.txt" ∷ []

abbrev after : Turn
after = elim (run_calls world calls turn false 0).1 [ none ↦ turn | some (t, planned) ↦ t ]

run_calls-Entered_example : Entered world calls turn after
unfolding run_calls kabot.Agents.Loop.edit_refusal lookup kabot.Session.Types.has_read_file
    kabot.Session.Types.add_tool_message kabot.Agents.Loop.after_tool
    kabot.Session.Types.record_file_read start_turn new_session
run_calls-Entered_example = run_calls-Entered world calls turn after false false 0 0 refl
