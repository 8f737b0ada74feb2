-- ===== src/Agents/Context/Kept.antt =====
-- What the projection keeps, in the source's order: ProjectMessages without the truncation of step 3.
use kabot.Base.{
  ℕ, zero, suc, ◌+◌, ◌≤◌, Bool, true, false, ◌&&◌, String, List, [], ◌∷◌, ◌++◌, ◌≡◌, refl, ap, inl,
  inr, any, keep, take, drop, arith, str_eq, eq_iff, Bool-cases,
}
use kabot.Agents.Context.{
  Message, has_role, is_image, protected_start, shrink, shrink_old, snip, pair_results, coalesce,
  project_messages, real_messages,
}

-- A system message with a picture.
abbrev pub is_system_image : Message → Bool
is_system_image m = has_role "system" m && any is_image m.content_parts

shrink_system :
    (to_string : ℕ → String) (m : Message)
    → has_role "system" m ≡ true
    → is_system_image m ≡ false
    → shrink to_string m ≡ m
unfolding shrink
shrink_system to_string m sys plain_text =
    let e : str_eq m.role "tool" ≡ false =
      ap (λ r. str_eq r "tool") ((eq_iff m.role "system").0 sys) in
    let f : any is_image m.content_parts ≡ false = ground (arith, sys, plain_text) in rw (e, f) refl

role_kept :
    (to_string : ℕ → String) (role : String) (m : Message)
    → has_role role (shrink to_string m) ≡ has_role role m
unfolding shrink
role_kept to_string role m = refl

kept_all :
    (to_string : ℕ → String) (start i : ℕ) (messages : List Message)
    → start ≤ i
    → snip start i (shrink_old to_string start i messages) ≡ messages
unfolding snip shrink_old
kept_all to_string start i [] h = refl
kept_all to_string start i (m ∷ messages) h =
    ground (arith, h, kept_all to_string start (suc i) messages)

kept :
    (to_string : ℕ → String) (start i rest : ℕ) (messages : List Message)
    → any is_system_image messages ≡ false
    → start ≡ i + rest
    → snip start i (shrink_old to_string start i messages)
      ≡ keep (has_role "system") (take rest messages) ++ drop rest messages
unfolding snip shrink_old
kept to_string start i zero [] h e = refl
kept to_string start i (suc rest) [] h e = refl
kept to_string start i zero (m ∷ messages) h e =
    ground (arith, e, h, kept_all to_string start (suc i) messages (omega (arith, e)))
kept to_string start i (suc rest) (m ∷ messages) h e = elim (Bool-cases (has_role "system" m)) [
  | inl sys ↦
      ground (
        arith,
        e,
        h,
        sys,
        shrink_system to_string m sys,
        kept to_string start (suc i) rest messages,
      )
  | inr other ↦ ground (
    arith,
    e,
    h,
    other,
    kept to_string start (suc i) rest messages,
    role_kept to_string "system" m,
  )
]

-- If no system message holds a picture, the provider is given the system messages from in front of the
-- protected tail, then the tail as it is, with the missing results added and the reminders merged: the
-- truncation of old tool results has no effect.
pub project_messages_lem :
    (to_string : ℕ → String) (messages : List Message)
    → any is_system_image (real_messages messages) ≡ false
    → project_messages to_string messages
      ≡ coalesce (
          pair_results (
            keep
              (has_role "system")
              (take (protected_start (real_messages messages)) (real_messages messages))
            ++ drop (protected_start (real_messages messages)) (real_messages messages)))
unfolding project_messages
project_messages_lem to_string messages h =
    let visible = real_messages messages in
    let start = protected_start visible in
    ap (λ ms. coalesce (pair_results ms)) (kept to_string start 0 start visible h (omega arith))
