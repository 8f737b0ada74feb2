-- ===== src/Channels/Allow.antt =====
-- Who may write to the agents: IsAllowed and HandleMessage of src/channels/channel_base.cpp.
use text.Mathlib.TextLemmas.{nil-append, cons-append}
use kabot.Base.{
  true, false, String, List, [], ◌∷◌, ◌++◌, ◌≡◌, refl, ap, member, arith, any-middle, ◌∙◌, empty,
  Bool-cases, inl, inr,
}
use kabot.Bus.{◌<+>◌}
use kabot.Channels.{is_pipe, has_pipe, part_and, split_parts, parts, is_allowed}

part_and-append : (p : String) (xs ys : List String) → part_and p (xs ++ ys) ≡ part_and p xs ++ ys
part_and-append p xs ys = ground arith

split_parts-join :
    (s t : String)
    → split_parts (s <+> "|" <+> t) ≡ ((split_parts s).0, (split_parts s).1 ++ parts t)
unfolding split_parts parts
split_parts-join String.[] t = rw (nil-append ("|" <+> t), cons-append "|" "" t, nil-append t) refl
split_parts-join (String.◌∷◌ c s) t =
    rw (cons-append c s ("|" <+> t), split_parts-join s t)
      (elim (Bool-cases (is_pipe c)) [
        | inl e ↦ rw (e, part_and-append (split_parts s).0 (split_parts s).1 (parts t)) refl
        | inr e ↦ rw e refl
      ])

parts-join : (s t : String) → parts (s <+> "|" <+> t) ≡ parts s ++ parts t
unfolding parts
parts-join s t =
    rw (split_parts-join s t) (part_and-append (split_parts s).0 (split_parts s).1 (parts t))

whole : (s : String) → has_pipe s ≡ false → split_parts s ≡ (s, [])
unfolding has_pipe split_parts
whole String.[] h = refl
whole (String.◌∷◌ c s) h = ground (arith, h, whole s)

has_pipe-join : (s t : String) → has_pipe (s <+> "|" <+> t) ≡ true
unfolding has_pipe
has_pipe-join String.[] t = rw (nil-append ("|" <+> t), cons-append "|" "" t) refl
has_pipe-join (String.◌∷◌ c s) t =
    rw (cons-append c s ("|" <+> t)) (ground (arith, has_pipe-join s t))

parts-whole : (s : String) → has_pipe s ≡ false → empty s ≡ false → parts s ≡ s ∷ []
unfolding parts
parts-whole s h e = rw (whole s h, e) refl

-- A sender whose name holds a listed part between bars is allowed.
pub is_allowed_part :
    (allow_from : List String) (before part after : String)
    → has_pipe part ≡ false
    → empty part ≡ false
    → member part allow_from ≡ true
    → is_allowed allow_from (before <+> "|" <+> part <+> "|" <+> after) ≡ true
unfolding is_allowed
is_allowed_part allow_from before part after one some_text listed =
    let split : parts (before <+> "|" <+> part <+> "|" <+> after)
        ≡ parts before ++ part ∷ parts after =
      parts-join before (part <+> "|" <+> after)
      ∙ ap (λ l. parts before ++ l)
          (parts-join part after ∙ ap (λ l. l ++ parts after) (parts-whole part one some_text)) in
    ground (
      arith,
      has_pipe-join before (part <+> "|" <+> after),
      split,
      any-middle (λ p. member p allow_from) (parts before) part (parts after) listed,
    )
