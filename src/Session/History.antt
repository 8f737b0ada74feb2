-- ===== src/Session/History.antt =====
-- Session::GetHistory of src/session/session_manager.cpp: which messages go to the model.
pub mod Window
pub mod Turns
mod Examples
use kabot.Base.{
  ℕ, zero, suc, ◌+◌, ◌-◌, Bool, true, false, not, ◌&&◌, String, Option, none, some, List, [], ◌∷◌,
  map, ltb, leb, str_eq, empty, if◌then◌else◌, length, get_elem?, drop,
}
use kabot.Session.Types.{SessionMessage}

-- The message that a provider is given.
pub record Message (ToolCall Usage : Type 0) : Type 0 where
  pub role : String
  pub content : String
  pub name : String
  pub tool_call_id : String
  pub tool_calls : List ToolCall
  pub usage : Usage

module _ {ToolCall : Type 0} where
  abbrev pub is_user : SessionMessage ToolCall → Bool
  is_user m = str_eq m.role "user"

  -- messages_[i].role == "user", at an index in range.
  abbrev pub user_at : List (SessionMessage ToolCall) → ℕ → Bool
  user_at messages i = elim (get_elem? messages i) [ none ↦ false | some m ↦ is_user m ]

  unfoldable pub hard_start : ℕ → List (SessionMessage ToolCall) → ℕ
  hard_start max_messages messages =
      if ltb max_messages (length messages) then length messages - max_messages else 0

  -- `for (i = size; i-- > hard_start;)`, with the rounds left: the index of the third user message
  -- from the end.
  unfoldable pub scan_back : List (SessionMessage ToolCall) → ℕ → ℕ → ℕ → Option ℕ
  scan_back messages from zero user_seen = none
  scan_back messages from (suc rounds) user_seen =
      let i = from + rounds in
      elim (user_at messages i) [
        | true ↦
            let rest = scan_back messages from rounds (user_seen + 1) in
            if leb 3 (user_seen + 1) then some i else rest
        | false ↦ scan_back messages from rounds user_seen
      ]

  -- `while (start < size && role != "user") start += 1;`, with the rounds left.
  unfoldable pub skip_to_user : List (SessionMessage ToolCall) → ℕ → ℕ → ℕ
  skip_to_user messages zero start = start
  skip_to_user messages (suc rounds) start =
      let rest = skip_to_user messages rounds (start + 1) in
      if user_at messages start then start else rest

  unfoldable pub scan_start : List (SessionMessage ToolCall) → ℕ → ℕ
  scan_start messages from = elim (scan_back messages from (length messages - from) 0) [
    | none ↦ from
    | some i ↦ i
  ]

  unfoldable pub first_user : List (SessionMessage ToolCall) → ℕ → ℕ
  first_user messages start = skip_to_user messages (length messages - start) start

  -- The index of the first message that is kept.
  unfoldable pub history_start : ℕ → List (SessionMessage ToolCall) → ℕ
  history_start max_messages messages =
      let from = hard_start max_messages messages in
      let start = first_user messages (scan_start messages from) in
      if leb (length messages) start then from else start

  module _ {Usage : Type 0} (no_usage : Usage) (parse_usage : String → Usage) where
    -- The copy of an entry; the usage is read from its JSON text by `parse_usage`.
    unfoldable pub to_message : SessionMessage ToolCall → Message ToolCall Usage
    to_message entry = record {
      role = entry.role;
      content = entry.content;
      name = entry.name;
      tool_call_id = entry.tool_call_id;
      tool_calls = entry.tool_calls;
      usage = if empty entry.usage_json then no_usage else parse_usage entry.usage_json;
    }

    unfoldable pub get_history : ℕ → List (SessionMessage ToolCall) → List (Message ToolCall Usage)
    unfolding history_start to_message
    get_history max_messages messages =
        map to_message (drop (history_start max_messages messages) messages)
