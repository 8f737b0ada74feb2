-- ===== src/Agents/Guardrail.antt =====
-- The guardrail of src/agent/agent_loop.cpp against answers without tools: the requests that it is for,
-- and the messages that it adds.
use Prim.Native.Char.{Char, code}
use text.Mathlib.Text.{starts_with}
use kabot.Base.{
  Bool, false, not, ◌&&◌, ◌||◌, String, List, [], ◌∷◌, ◌++◌, any, leb, empty, if◌then◌else◌,
}
use kabot.Bus.{◌<+>◌}
use kabot.Tasks.Questions.{to_lower}
use kabot.Agents.Context.{Message, plain}

-- std::isalpha in the "C" locale; the bytes of other characters are no letters there.
abbrev pub is_alpha : Char → Bool
is_alpha c = (leb 65 (code c) && leb (code c) 90) || (leb 97 (code c) && leb (code c) 122)

-- An occurrence of the keyword at or behind this place, with no letter in front of it; `letter` says
-- whether one stands in front of this place.
unfoldable pub word_from : Bool → String → String → Bool
word_from letter keyword String.[] = false
word_from letter keyword (String.◌∷◌ c s) =
    (not letter && starts_with (String.◌∷◌ c s) keyword) || word_from (is_alpha c) keyword s

unfoldable pub contains_word : String → String → Bool
unfolding word_from
contains_word haystack keyword = word_from false keyword haystack

unfoldable pub contains_any_keyword : String → List String → Bool
unfolding contains_word
contains_any_keyword haystack keywords = any (contains_word haystack) keywords

abbrev pub guardrail_keywords : List String
guardrail_keywords =
    "read " ∷ "open " ∷ "check " ∷ "look at" ∷ "inspect" ∷ "search" ∷ "fetch" ∷ "browse" ∷ "web"
    ∷ "http" ∷ "curl" ∷ "file" ∷ "folder" ∷ "directory" ∷ "code" ∷ "edit" ∷ "modify" ∷ "change"
    ∷ "write " ∷ "create " ∷ "run " ∷ "execute" ∷ "command" ∷ "shell" ∷ "terminal" ∷ "send"
    ∷ "message" ∷ "cron" ∷ "schedule" ∷ "定时" ∷ "读取" ∷ "查看" ∷ "检查" ∷ "搜索" ∷ "查下" ∷ "查一" ∷ "修改" ∷ "改下"
    ∷ "编辑" ∷ "写入" ∷ "创建" ∷ "生成文件" ∷ "运行" ∷ "执行" ∷ "命令" ∷ "终端" ∷ "发消息" ∷ "发送" ∷ "抓取" ∷ "网页" ∷ "联网"
    ∷ []

unfoldable pub requires_tool_guardrail : String → Bool
unfolding contains_any_keyword
requires_tool_guardrail content = contains_any_keyword (to_lower content) guardrail_keywords

unfoldable pub build_tool_guardrail_message : String → String
build_tool_guardrail_message original_request =
    "你刚才那条用户请求很可能需要外部观察或实际副作用。"
    <+> "在你真正调用所需工具并拿到结果之前，不要声称任务已经完成。"
    <+> "如果需要工具，请现在立即调用；如果现有工具不足，请明确说明缺少什么，不要假装已经成功完成。"
    <+> (if empty original_request then "" else "原始请求：" <+> original_request)

unfoldable pub append_guardrail_user_message : List Message → String → List Message
append_guardrail_user_message messages original_request =
    messages ++ plain "user" (build_tool_guardrail_message original_request) ∷ []

unfoldable pub append_post_tool_reminder : List Message → List Message
append_post_tool_reminder messages =
    messages ++ plain "user" "你刚刚执行了工具调用并收到了结果。请基于这些结果给出一个清晰、完整的回复，不要留空。" ∷ []
