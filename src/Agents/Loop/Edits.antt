-- ===== src/Agents/Loop/Edits.antt =====
-- Edits in the loop of src/agent/agent_loop.cpp: edit_file runs on a file that was read before.
pub mod Rounds
use kabot.Base.{
  ℕ, zero, suc, Bool, true, false, not, ◌&&◌, ◌||◌, String, Option, none, some, List, [], ◌∷◌, ◌≡◌,
  refl, str_eq, empty, arith, member, inl, inr, Bool-cases, ◌⊎◌, subst, sym, ap, Option-cases,
  if◌then◌else◌, eq_iff,
}
use text.Mathlib.Text.{starts_with}
use kabot.Base.Dict.{lookup}
use kabot.Session.Types.{Session, add_message, add_tool_message, record_file_read, has_read_file}
use kabot.Agents.Context.{Message, ToolCallRequest}
use kabot.Agents.Loop.{
  World, Turn, LlmResponse, Next, again, finished, thrown, edit_refusal, after_tool,
  execute_tool_with_guardrails, enter_result, run_calls, has_tool_calls, respond, round, loop,
  answer, after_calls, enter_request, notify_phase, calling_tools, processing, replying, Phase,
}
use kabot.Agents.Memory.{trim}
use kabot.Agents.Loop.Calls.{
  Event, chatted, ran, logged, HoldsRun, keyed, execute-allowed, execute-refused,
}

-- The path of a read_file call that succeeded.
abbrev pub path_read : Event → Option String
path_read (chatted messages) = none
path_read (ran call none) = none
path_read (ran call (some text)) =
    if str_eq call.name "read_file" && not (empty text) && not (starts_with text "Error:")
    then lookup "path" call.arguments
    else none

abbrev pub is_path : String → Option String → Bool
is_path path none = false
is_path path (some p) = str_eq p path

-- The path is one of the `paths`, or was read in the log.
unfoldable pub is_read : List String → String → List Event → Bool
is_read paths path [] = member path paths
is_read paths path (event ∷ log) = is_read paths path log || is_path path (path_read event)

abbrev pub may_run : List String → ToolCallRequest → List Event → Bool
may_run paths call log =
    not (str_eq call.name "edit_file")
    || elim (lookup "path" call.arguments) [ none ↦ false | some path ↦ is_read paths path log ]

-- Each edit_file call of the log is on a file that was read before it.
unfoldable pub edits_follow_reads : List String → List Event → Bool
unfolding is_read
edits_follow_reads paths [] = true
edits_follow_reads paths (chatted messages ∷ log) = edits_follow_reads paths log
edits_follow_reads paths (ran call outcome ∷ log) =
    may_run paths call log && edits_follow_reads paths log

module _ {S : Type 0} (w : World S) (paths : List String) where
  -- The session's paths are read in the log, and its edits follow reads.
  pub record Sound (x : Session ToolCallRequest) (st : S × List Event) : Type 0 where
    pub reads :
        (path : String) → member path x.read_file_paths ≡ true → is_read paths path st.1 ≡ true
    pub edits : edits_follow_reads paths st.1 ≡ true

  unfoldable pub Edits : S × List Event → Type 0
  Edits st = edits_follow_reads paths st.1 ≡ true

  pub Sound-weaken : (x : Session ToolCallRequest) (st : S × List Event) → Sound x st → Edits st
  unfolding Edits
  Sound-weaken x st h = h.edits

  pub Sound-entered :
      (x : Session ToolCallRequest) (st : S × List Event) (id name text : String)
      → Sound x st
      → Sound (add_tool_message ToolCallRequest x id name text w.now w.now) st
  unfolding add_tool_message
  Sound-entered x st id name text h = record { reads = h.reads; edits = h.edits }

  edit_refusal-may_run :
      (x : Session ToolCallRequest) (s : S) (log : List Event) (call : ToolCallRequest)
      → Sound x (s, log)
      → edit_refusal x call ≡ none
      → may_run paths call log ≡ true
  unfolding edit_refusal has_read_file
  edit_refusal-may_run x s log call h e = elim (Option-cases (lookup "path" call.arguments)) [
    | inl o ↦ ground arith
    | inr (path, o) ↦ ground (arith, h.reads path)
  ]

  reads-after :
      (x : Session ToolCallRequest) (s : S) (log : List Event) (call : ToolCallRequest)
      (text path : String)
      → Sound x (s, log)
      → member path (after_tool x call text).read_file_paths ≡ true
      → is_read paths path (ran call (some text) ∷ log) ≡ true
  unfolding after_tool is_read record_file_read
  reads-after x s log call text path h m = elim (Option-cases (lookup "path" call.arguments)) [
    | inl o ↦ ground (arith, h.reads path)
    | inr (read, o) ↦ ground (arith, h.reads path, eq_iff read path)
  ]

  Sound-ran :
      (x : Session ToolCallRequest) (s : S) (log : List Event) (call : ToolCallRequest)
      (r : S × Option String)
      → Sound x (s, log)
      → may_run paths call log ≡ true
      → HoldsRun (logged w) Sound Edits (
        (r.0, ran call r.1 ∷ log),
        elim r.1 [ none ↦ none | some text ↦ some (after_tool x call text, text) ],
      )
  unfolding HoldsRun Edits edits_follow_reads
  Sound-ran x s log call (s', none) h m = ground (arith, h.edits)
  Sound-ran x s log call (s', some text) h m = record {
    reads = λ path. reads-after x s log call text path h;
    edits = ground (arith, h.edits);
  }

  pub Sound-runs :
      (x : Session ToolCallRequest) (st : S × List Event) (call : ToolCallRequest)
      → Sound x st
      → HoldsRun (logged w) Sound Edits (execute_tool_with_guardrails (logged w) x call st)
  unfolding HoldsRun
  Sound-runs x (s, log) call h = elim (Option-cases (edit_refusal x call)) [
    | inr (refusal, e) ↦
        subst (HoldsRun (logged w) Sound Edits) (sym (execute-refused w x (s, log) call refusal e))
          h
    | inl e ↦ subst (HoldsRun (logged w) Sound Edits) (sym (execute-allowed w x s log call e)) (
        Sound-ran x s log call (w.execute call (keyed w x call s)) h
          (edit_refusal-may_run x s log call h e))
  ]
