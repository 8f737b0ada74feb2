-- ===== src/Agents/Context.antt =====
-- src/agent/context_builder.cpp: the list of messages that a model provider is given. The system
-- prompt and the parts of the user's content are read from files outside, so they are arguments. A
-- size is in bytes; the decimal digits of std::to_string are the argument `to_string`. The
-- ids of a std::unordered_set are taken in the order in which they were put there.
pub mod Start
pub mod Projection
pub mod Kept
pub mod Pairing
pub mod Virtual
pub mod Tokens
mod Examples
use Prim.Native.String
use Prim.Native.String.{len, slice}
use text.Mathlib.Text.{starts_with}
use kabot.Base.{
  ℕ, zero, suc, ◌+◌, ◌/◌, Bool, true, false, not, ◌&&◌, ◌||◌, String, Option, none, some, List, [],
  ◌∷◌, ◌++◌, map, keep, any, member, length, get_elem?, ltb, leb, str_eq, empty, if◌then◌else◌,
}
use kabot.Base.Dict.{Dict, lookup}
use kabot.Base.Int.{ℤ, pos, negsuc}
use kabot.Bus.{◌<+>◌}

pub record ContentPart : Type 0 where
  pub type : String
  pub text : String
  pub image_url : String

pub record ToolCallRequest : Type 0 where
  pub id : String
  pub name : String
  pub arguments : Dict String

pub record Message : Type 0 where
  pub role : String
  pub content : String
  pub name : String
  pub tool_call_id : String
  pub tool_calls : List ToolCallRequest
  pub content_parts : List ContentPart
  pub usage : Dict ℤ
  pub is_virtual : Bool

-- A Message{} with a role and a content.
abbrev pub plain : String → String → Message
plain role content = record {
  role = role;
  content = content;
  name = "";
  tool_call_id = "";
  tool_calls = [];
  content_parts = [];
  usage = [];
  is_virtual = false;
}

abbrev pub has_role : String → Message → Bool
has_role role m = str_eq m.role role

abbrev pub none_of {ℓ} : {A : Type ℓ} → List A → Bool
none_of [] = true
none_of (x ∷ xs) = false

unfoldable pub build_messages : String → List Message → String → List ContentPart → List Message
build_messages system_prompt history current_message user_content =
    plain "system" system_prompt
    ∷ (history
        ++ record (plain "user" (if none_of user_content then current_message else "")) {
          content_parts = user_content;
        }
          ∷ [])

unfoldable pub add_tool_result : List Message → String → String → String → List Message
add_tool_result messages tool_call_id tool_name result =
    messages ++ record (plain "tool" result) { tool_call_id = tool_call_id; name = tool_name } ∷ []

unfoldable pub add_assistant_message :
    List Message → String → List ToolCallRequest → Dict ℤ → List Message
add_assistant_message messages content tool_calls usage =
    messages ++ record (plain "assistant" content) { tool_calls = tool_calls; usage = usage } ∷ []

-- messages[i].role == role, at an index in range.
abbrev pub role_at : String → List Message → ℕ → Bool
role_at role messages i = elim (get_elem? messages i) [ none ↦ false | some m ↦ has_role role m ]

-- `for (i = size; i-- > 0;)` with the rounds left: the index of the third user message from the end;
-- `none` where there are fewer than three.
unfoldable pub third_user : List Message → ℕ → ℕ → Option ℕ
third_user messages zero users_seen = none
third_user messages (suc i) users_seen = elim (role_at "user" messages i) [
  | true ↦ if leb 3 (users_seen + 1) then some i else third_user messages i (users_seen + 1)
  | false ↦ third_user messages i users_seen
]

-- The index of the last assistant message.
unfoldable pub last_assistant : List Message → ℕ → Option ℕ
last_assistant messages zero = none
last_assistant messages (suc i) =
    let before = last_assistant messages i in
    if role_at "assistant" messages i then some i else before

unfoldable pub protected_start : List Message → ℕ
protected_start messages = elim (third_user messages (length messages) 0) [
  | some i ↦ i
  | none ↦ elim (last_assistant messages (length messages)) [ none ↦ length messages | some i ↦ i ]
]

abbrev pub tool_result_max_chars : ℕ
tool_result_max_chars = 12000

unfoldable pub truncate_content : (ℕ → String) → String → ℕ → String
truncate_content to_string value max_len =
    if leb (len value) max_len
    then value
    else slice value 0 max_len
      <+> "\n...[truncated, original size="
      <+> to_string (len value)
      <+> " chars]..."

abbrev pub is_image : ContentPart → Bool
is_image part = str_eq part.type "image_url"

abbrev pub strip_image : ContentPart → ContentPart
strip_image part =
    if is_image part then record { type = "text"; text = "[image]"; image_url = "" } else part

-- Step 3 on one message.
unfoldable pub shrink : (ℕ → String) → Message → Message
shrink to_string m = record m {
  content =
      if str_eq m.role "tool" && ltb tool_result_max_chars (len m.content)
      then truncate_content to_string m.content tool_result_max_chars
      else m.content;
  content_parts =
      if any is_image m.content_parts then map strip_image m.content_parts else m.content_parts;
}

-- Step 3: the messages below the start, from the index `i` on.
unfoldable pub shrink_old : (ℕ → String) → ℕ → ℕ → List Message → List Message
unfolding shrink
shrink_old to_string start i [] = []
shrink_old to_string start i (m ∷ messages) =
    (if ltb i start then shrink to_string m else m) ∷ shrink_old to_string start (suc i) messages

-- Step 4: system messages and those from the start on.
unfoldable pub snip : ℕ → ℕ → List Message → List Message
snip start i [] = []
snip start i (m ∷ messages) =
    let rest = snip start (suc i) messages in
    if has_role "system" m || leb start i then m ∷ rest else rest

-- pending_tool_use_ids, in the order in which they come; each stands once.
unfoldable pub tool_use_ids : List Message → List String
tool_use_ids [] = []
tool_use_ids (m ∷ messages) =
    let rest = tool_use_ids messages in
    if has_role "assistant" m
    then map (λ (call : ToolCallRequest). call.id) m.tool_calls ++ rest
    else rest

-- seen_tool_result_ids holds the id.
unfoldable pub has_result : String → List Message → Bool
has_result id messages =
    any
      (λ (m : Message). has_role "tool" m && not (empty m.tool_call_id) && str_eq m.tool_call_id id)
      messages

abbrev pub placeholder : String → Message
placeholder id = record (plain "tool" "[Tool result missing due to internal error]") {
  tool_call_id = id;
  name = "unknown";
}

-- A placeholder for each id of the set that has no result, where `done` are those handled.
unfoldable pub missing_results : List Message → List String → List String → List Message
missing_results messages done [] = []
missing_results messages done (id ∷ ids) =
    let rest = missing_results messages (id ∷ done) ids in
    if member id done || has_result id messages then rest else placeholder id ∷ rest

-- Step 5.
unfoldable pub pair_results : List Message → List Message
unfolding missing_results tool_use_ids
pair_results messages = messages ++ missing_results messages [] (tool_use_ids messages)

abbrev pub is_reminder : Message → Bool
is_reminder m =
    has_role "user" m && not (empty m.content) && starts_with m.content "<system-reminder>"

-- Step 6, with the messages merged so far, the last one apart.
unfoldable pub merge_after : Message → List Message → List Message
merge_after last [] = last ∷ []
merge_after last (m ∷ messages) =
    let merged =
      merge_after (record last { content = m.content <+> "\n" <+> last.content }) messages in
    let apart = last ∷ merge_after m messages in
    if is_reminder m && has_role "tool" last then merged else apart

unfoldable pub coalesce : List Message → List Message
unfolding merge_after
coalesce [] = []
coalesce (m ∷ messages) = merge_after m messages

abbrev pub real_messages : List Message → List Message
real_messages messages = keep (λ (m : Message). not m.is_virtual) messages

unfoldable pub project_messages : (ℕ → String) → List Message → List Message
unfolding shrink_old snip pair_results coalesce
project_messages to_string messages =
    let visible = real_messages messages in
    coalesce (
      pair_results (
        snip (protected_start visible) 0
          (shrink_old to_string (protected_start visible) 0 visible)))
