-- ===== src/Agents/Context/Tokens.antt =====
-- EstimateTokens of src/agent/context_builder.cpp: the size of a message list in tokens.
use Prim.Native.String.{len}
use kabot.Base.{
  ℕ, ◌+◌, ◌/◌, ◌&&◌, String, Option, none, some, List, [], ◌∷◌, ltb, empty, if◌then◌else◌,
}
use kabot.Base.Dict.{lookup}
use kabot.Base.Int.{pos, negsuc}
use kabot.Agents.Context.{ContentPart, ToolCallRequest, Message, has_role}

abbrev pub text_size : ContentPart → ℕ
text_size part = len part.text + (if empty part.image_url then 0 else 256)

abbrev pub sum {ℓ} : {A : Type ℓ} → (A → ℕ) → List A → ℕ
sum f [] = 0
sum f (x ∷ xs) = f x + sum f xs

unfoldable pub rough_estimate_message_tokens : Message → ℕ
rough_estimate_message_tokens m =
    (len m.content
        + sum text_size m.content_parts
        + sum
            (λ (call : ToolCallRequest).
              len call.name
              + sum (λ (entry : String × String). len entry.0 + len entry.1) call.arguments)
            m.tool_calls)
      / 4
    + 1

-- A positive count in the usage of an assistant message.
abbrev pub usage_baseline : Message → Option ℕ
usage_baseline m = elim (lookup "total_tokens" m.usage) [
  | none ↦ none
  | some (pos n) ↦ if has_role "assistant" m && ltb 0 n then some n else none
  | some (negsuc n) ↦ none
]

-- EstimateTokens: the last baseline and the messages behind it, or all of the messages.
unfoldable pub baseline_tokens : List Message → Option ℕ
baseline_tokens [] = none
baseline_tokens (m ∷ messages) = elim (baseline_tokens messages) [
  | some total ↦ some total
  | none ↦ elim (usage_baseline m) [
    | none ↦ none
    | some n ↦ some (n + sum rough_estimate_message_tokens messages)
  ]
]

unfoldable pub estimate_tokens : List Message → ℕ
unfolding baseline_tokens rough_estimate_message_tokens
estimate_tokens messages = elim (baseline_tokens messages) [
  | none ↦ sum rough_estimate_message_tokens messages
  | some total ↦ total
]
