-- ===== src/Agents/Context/Projection.antt =====
-- Which messages the projection keeps: steps 2 to 4 of ProjectMessages.
use kabot.Base.{
  ℕ, suc, ◌+◌, ◌≤◌, ◌<◌, true, false, String, List, [], ◌∷◌, ◌++◌, ◌≡◌, refl, ◌∙◌, ap, inl, inr,
  any, length, arith, str_eq, eq_iff, any-append,
}
use kabot.Bus.{◌<+>◌}
use kabot.Agents.Context.{
  Message, has_role, protected_start, shrink, shrink_old, snip, missing_results, pair_results,
  merge_after, coalesce, project_messages, real_messages, tool_use_ids,
}
use kabot.Agents.Context.Pairing.{merge_step}
use kabot.Agents.Context.Start.{count_users, protected_start-few, protected_start-middle}

role_shrink :
    (to_string : ℕ → String) (role : String) (start i : ℕ) (messages : List Message)
    → any (has_role role) (shrink_old to_string start i messages) ≡ any (has_role role) messages
unfolding shrink_old shrink
role_shrink to_string role start i [] = refl
role_shrink to_string role start i (m ∷ messages) =
    ground (arith, role_shrink to_string role start (suc i) messages)

length-shrink :
    (to_string : ℕ → String) (start i : ℕ) (messages : List Message)
    → length (shrink_old to_string start i messages) ≡ length messages
unfolding shrink_old
length-shrink to_string start i [] = refl
length-shrink to_string start i (m ∷ messages) =
    ap suc (length-shrink to_string start (suc i) messages)

system_only : (m : Message) → has_role "system" m ≡ true → has_role "user" m ≡ false
system_only m h = ap (λ r. str_eq r "user") ((eq_iff m.role "system").0 h)

assistant_only : (m : Message) → has_role "assistant" m ≡ true → has_role "user" m ≡ false
assistant_only m h = ap (λ r. str_eq r "user") ((eq_iff m.role "assistant").0 h)

-- Below the start, no user message is kept.
snip-user :
    (start i : ℕ) (messages : List Message)
    → i + length messages ≤ start
    → any (has_role "user") (snip start i messages) ≡ false
unfolding snip
snip-user start i [] h = refl
snip-user start i (m ∷ messages) h = ground (arith, snip-user start (suc i) messages, system_only m)

missing-user :
    (messages : List Message) (done ids : List String)
    → any (has_role "user") (missing_results messages done ids) ≡ false
unfolding missing_results
missing-user messages done [] = refl
missing-user messages done (id ∷ ids) = ground (arith, missing-user messages (id ∷ done) ids)

pair-user :
    (messages : List Message)
    → any (has_role "user") (pair_results messages) ≡ any (has_role "user") messages
unfolding pair_results
pair-user messages = ground (
  arith,
  any-append (has_role "user") messages (missing_results messages [] (tool_use_ids messages)),
  missing-user messages [] (tool_use_ids messages),
)

merge-user :
    (last : Message) (messages : List Message)
    → any (has_role "user") (last ∷ messages) ≡ false
    → any (has_role "user") (merge_after last messages) ≡ false
merge-user last [] h = unfold merge_after in h
merge-user last (m ∷ messages) h = elim (merge_step last m messages) [
  | inl (e, next, tool, asks) ↦ rw next (
      merge-user (record last { content = m.content <+> "\n" <+> last.content }) messages
        (ground (arith, h)))
  | inr next ↦ rw next (ground (arith, h, merge-user m messages (ground (arith, h))))
]

coalesce-user :
    (messages : List Message)
    → any (has_role "user") messages ≡ false
    → any (has_role "user") (coalesce messages) ≡ false
unfolding coalesce
coalesce-user [] h = refl
coalesce-user (m ∷ messages) h = merge-user m messages h

-- Where no assistant has answered yet and there are fewer than three user messages, as in every new
-- session, no user message is left in what the provider is given.
pub project_messages-first :
    (to_string : ℕ → String) (messages : List Message)
    → count_users (real_messages messages) < 3
    → any (has_role "assistant") (real_messages messages) ≡ false
    → any (has_role "user") (project_messages to_string messages) ≡ false
unfolding project_messages
project_messages-first to_string messages few silent =
    let visible = real_messages messages in
    let start = protected_start visible in
    let old = shrink_old to_string start 0 visible in
    let all_old : 0 + length old ≤ start =
      omega
        (arith, length-shrink to_string start 0 visible, protected_start-few visible few silent) in
    coalesce-user (pair_results (snip start 0 old))
      (pair-user (snip start 0 old) ∙ snip-user start 0 old all_old)

snip-append :
    (start i : ℕ) (xs ys : List Message)
    → snip start i (xs ++ ys) ≡ snip start i xs ++ snip start (i + length xs) ys
unfolding snip
snip-append start i [] ys = ap (λ j. snip start j ys) (omega arith)
snip-append start i (m ∷ xs) ys =
    let e : suc i + length xs ≡ i + suc (length xs) = omega arith in
    let shifted = ap (λ j. snip start j ys) e in
    ground (arith, snip-append start (suc i) xs ys, shifted)

shrink-append :
    (to_string : ℕ → String) (start i : ℕ) (xs ys : List Message)
    → shrink_old to_string start i (xs ++ ys)
      ≡ shrink_old to_string start i xs ++ shrink_old to_string start (i + length xs) ys
unfolding shrink_old
shrink-append to_string start i [] ys = ap (λ j. shrink_old to_string start j ys) (omega arith)
shrink-append to_string start i (m ∷ xs) ys =
    let e : suc i + length xs ≡ i + suc (length xs) = omega arith in
    let shifted = ap (λ j. shrink_old to_string start j ys) e in
    ground (arith, shrink-append to_string start (suc i) xs ys, shifted)

snip-none :
    (start i : ℕ) (messages : List Message)
    → any (has_role "user") messages ≡ false
    → any (has_role "user") (snip start i messages) ≡ false
unfolding snip
snip-none start i [] h = refl
snip-none start i (m ∷ messages) h = ground (arith, h, snip-none start (suc i) messages)

-- Once an assistant message has been answered by tools alone and there are fewer than three user
-- messages, the user's request in front of it is not in what the provider is given either.
pub project_messages-called :
    (to_string : ℕ → String) (messages before after : List Message) (m : Message)
    → real_messages messages ≡ before ++ m ∷ after
    → count_users (before ++ m ∷ after) < 3
    → has_role "assistant" m ≡ true
    → any (has_role "assistant") after ≡ false
    → any (has_role "user") after ≡ false
    → any (has_role "user") (project_messages to_string messages) ≡ false
unfolding project_messages
project_messages-called to_string messages before after m split few asks last quiet =
    let whole = before ++ m ∷ after in
    let start = protected_start whole in
    let at : start ≡ length before = protected_start-middle before m after few asks last in
    let old = shrink_old to_string start 0 before in
    let tail = shrink_old to_string start (0 + length before) (m ∷ after) in
    let below : any (has_role "user") (snip start 0 old) ≡ false =
      snip-user start 0 old (omega (arith, at, length-shrink to_string start 0 before)) in
    let calm : any (has_role "user") (m ∷ after) ≡ false =
      ground (arith, quiet, assistant_only m asks) in
    let above : any (has_role "user") (snip start (0 + length old) tail) ≡ false =
      snip-none start (0 + length old) tail
        (role_shrink to_string "user" start (0 + length before) (m ∷ after) ∙ calm) in
    let parts : snip start 0 (shrink_old to_string start 0 whole)
        ≡ snip start 0 old ++ snip start (0 + length old) tail =
      ap (snip start 0) (shrink-append to_string start 0 before (m ∷ after))
      ∙ snip-append start 0 old tail in
    let none_left : any (has_role "user") (snip start 0 (shrink_old to_string start 0 whole))
        ≡ false =
      ap (any (has_role "user")) parts
      ∙ any-append (has_role "user") (snip start 0 old) (snip start (0 + length old) tail)
      ∙ rw below above in
    rw split (
      coalesce-user (pair_results (snip start 0 (shrink_old to_string start 0 whole)))
        (pair-user (snip start 0 (shrink_old to_string start 0 whole)) ∙ none_left))
