-- ===== src/Tasks/Questions.antt =====
-- ShouldWaitForUser of src/task/task_runtime.cpp: whether a reply asks the user something. A text is
-- searched as std::string::find does; std::tolower changes the letters A to Z.
use Prim.Native.Char.{Char, code}
use kabot.Base.{
  Bool, true, false, ◌&&◌, ◌||◌, String, List, [], ◌∷◌, any, find?, is_some, str_eq, empty, ◌==◌,
  if◌then◌else◌,
}

lower_in : String → String → Char → Char
lower_in String.[] lower c = c
lower_in (String.◌∷◌ u upper) String.[] c = c
lower_in (String.◌∷◌ u upper) (String.◌∷◌ l lower) c =
    let rest = lower_in upper lower c in if code c == code u then l else rest

unfoldable pub lower_char : Char → Char
unfolding lower_in
lower_char c = lower_in "ABCDEFGHIJKLMNOPQRSTUVWXYZ" "abcdefghijklmnopqrstuvwxyz" c

unfoldable pub to_lower : String → String
unfolding lower_char
to_lower String.[] = ""
to_lower (String.◌∷◌ c s) = String.◌∷◌ (lower_char c) (to_lower s)

abbrev pub contains : String → String → Bool
contains content marker = is_some (find? content marker)

unfoldable pub contains_any : String → List String → Bool
contains_any content markers = any (contains content) markers

abbrev pub completion_markers : List String
completion_markers =
    "completed" ∷ "done." ∷ "done!" ∷ "background task completed" ∷ "i've completed"
    ∷ "i have completed" ∷ "已完成" ∷ "已经完成" ∷ "处理完成" ∷ "完成了" ∷ "error:" ∷ "failed" ∷ "失败" ∷ []

abbrev pub confirmation_markers : List String
confirmation_markers =
    "please confirm" ∷ "can you confirm" ∷ "confirm?" ∷ "需要你确认" ∷ "请确认" ∷ "确认一下" ∷ "确认后我再继续"
    ∷ "确认后继续" ∷ []

abbrev pub choice_markers : List String
choice_markers =
    "which one" ∷ "which option" ∷ "let me know which" ∷ "tell me which" ∷ "pick one" ∷ "choose one"
    ∷ "choose between" ∷ "你希望我" ∷ "你想让我" ∷ "你要哪个" ∷ "选哪个" ∷ "选择哪个" ∷ "二选一" ∷ []

abbrev pub permission_markers : List String
permission_markers =
    "do you want me to" ∷ "should i" ∷ "would you like me to" ∷ "shall i" ∷ "是否继续" ∷ "要不要继续"
    ∷ "是否要我" ∷ "要我现在" ∷ "我继续吗" ∷ []

abbrev pub reply_markers : List String
reply_markers = "reply with" ∷ "let me know" ∷ "tell me" ∷ "回复我" ∷ "告诉我" ∷ "请回复" ∷ "请告诉我" ∷ []

abbrev pub action_markers : List String
action_markers = "continue" ∷ "proceed" ∷ "go ahead" ∷ "继续" ∷ "开始" ∷ "执行" ∷ "删除" ∷ "修改" ∷ "采用" ∷ []

unfoldable pub has_question_mark : String → Bool
has_question_mark content = contains content "?" || contains content "？"

-- The tests on the lowered content.
unfoldable pub asks_user : String → Bool
asks_user content =
    if contains_any content completion_markers
    then false
    else if contains_any content confirmation_markers
    then true
    else if (contains_any content choice_markers || contains_any content permission_markers)
        && (has_question_mark content || contains_any content reply_markers)
    then true
    else has_question_mark content
      && contains_any content reply_markers
      && contains_any content action_markers

-- The fields of the two messages that the test reads: the channel and the chat of the inbound one,
-- and the content of the outbound one.
unfoldable pub should_wait_for_user : String → String → String → Bool
unfolding to_lower asks_user
should_wait_for_user channel chat_id content =
    if str_eq channel "system"
    then false
    else if empty chat_id || empty content
    then false
    else asks_user (to_lower content)
