-- ===== src/Agents/Context/Pairing.antt =====
-- Tool calls and their results in the projected messages: steps 5 and 6 of ProjectMessages.
use kabot.Base.{
  true, false, ◌&&◌, List, ◌∷◌, ◌≡◌, refl, ap, ◌⊎◌, inl, inr, arith, str_eq, eq_iff, Bool-cases,
}
use kabot.Bus.{◌<+>◌}
use kabot.Agents.Context.{Message, has_role, is_reminder, merge_after}

pub user_only :
    (m : Message)
    → has_role "user" m ≡ true
    → (has_role "tool" m ≡ false) × (has_role "assistant" m ≡ false)
user_only m h =
    let e : m.role ≡ "user" = (eq_iff m.role "user").0 h in
    (ap (λ r. str_eq r "tool") e, ap (λ r. str_eq r "assistant") e)

pub merge_step :
    (last m : Message) (messages : List Message)
    → ((is_reminder m && has_role "tool" last ≡ true)
        × (merge_after last (m ∷ messages)
            ≡ merge_after (record last { content = m.content <+> "\n" <+> last.content }) messages)
        × (has_role "tool" m ≡ false)
        × (has_role "assistant" m ≡ false))
      ⊎ (merge_after last (m ∷ messages) ≡ last ∷ merge_after m messages)
unfolding merge_after
merge_step last m messages = elim (Bool-cases (is_reminder m && has_role "tool" last)) [
  | inl e ↦
      inl (e, rw e refl, (user_only m (ground (arith, e))).0, (user_only m (ground (arith, e))).1)
  | inr e ↦ inr (rw e refl)
]
