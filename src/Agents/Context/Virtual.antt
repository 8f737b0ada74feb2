-- ===== src/Agents/Context/Virtual.antt =====
-- Virtual messages, such as the notifications of sub-agents: ProjectMessages, step 1.
use kabot.Base.{
  ℕ, true, String, List, [], ◌∷◌, ◌++◌, ◌≡◌, refl, sym, ap, ◌∙◌, all, arith, keep-append,
}
use kabot.Agents.Context.{Message, real_messages, project_messages}

all_virtual-real :
    (extra : List Message)
    → all (λ (m : Message). m.is_virtual) extra ≡ true
    → real_messages extra ≡ []
all_virtual-real [] h = refl
all_virtual-real (m ∷ extra) h = ground (arith, h, all_virtual-real extra)

-- A message that is marked virtual never reaches the provider: whatever virtual messages stand in
-- front of others and behind them, the provider is given what it would be given without them.
pub project_messages-virtual :
    (to_string : ℕ → String) (before extra after : List Message)
    → all (λ (m : Message). m.is_virtual) extra ≡ true
    → project_messages to_string (before ++ (extra ++ after))
      ≡ project_messages to_string (before ++ after)
unfolding project_messages
project_messages-virtual to_string before extra after h =
    let same : real_messages (before ++ (extra ++ after)) ≡ real_messages (before ++ after) =
      keep-append _ before (extra ++ after)
      ∙ ap (λ ms. real_messages before ++ ms)
          (keep-append _ extra after
            ∙ ap (λ ms. ms ++ real_messages after) (all_virtual-real extra h))
      ∙ sym (keep-append _ before after) in
    rw same refl
