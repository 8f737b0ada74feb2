-- ===== src/Agents/Context/Start.antt =====
-- Where the protected tail of the messages starts: step 2 of ProjectMessages.
use kabot.Base.{
  ℕ, zero, suc, ◌+◌, ◌≤◌, ◌<◌, true, false, String, none, some, List, [], ◌∷◌, ◌++◌, ◌≡◌, refl, sym,
  ◌∙◌, ap, inl, inr, any, keep, take, length, arith, if◌then◌else◌, Bool-cases, leb, length-append,
}
use kabot.Agents.Context.{Message, has_role, role_at, third_user, last_assistant, protected_start}

abbrev pub count_users : List Message → ℕ
count_users messages = length (keep (has_role "user") messages)

users-take :
    (messages : List Message) (i : ℕ)
    → length (keep (has_role "user") (take (suc i) messages))
      ≡ length (keep (has_role "user") (take i messages))
        + (if role_at "user" messages i then 1 else 0)
users-take [] zero = refl
users-take [] (suc i) = refl
users-take (m ∷ messages) zero = ground arith
users-take (m ∷ messages) (suc i) = ground (arith, users-take messages i)

third_user-none :
    (messages : List Message) (i seen : ℕ)
    → seen + count_users (take i messages) < 3
    → third_user messages i seen ≡ none
unfolding third_user
third_user-none messages zero seen h = refl
third_user-none messages (suc i) seen h = elim (Bool-cases (role_at "user" messages i)) [
  | inl e ↦ ground (arith, e, h, users-take messages i, third_user-none messages i (seen + 1))
  | inr e ↦ ground (arith, e, h, users-take messages i, third_user-none messages i seen)
]

take-whole : (messages : List Message) → take (length messages) messages ≡ messages
take-whole [] = refl
take-whole (m ∷ messages) = ap (◌∷◌ m) (take-whole messages)

role_at-any :
    (role : String) (messages : List Message) (i : ℕ)
    → any (has_role role) messages ≡ false
    → role_at role messages i ≡ false
role_at-any role [] i h = refl
role_at-any role (m ∷ messages) zero h = ground (arith, h)
role_at-any role (m ∷ messages) (suc i) h = role_at-any role messages i (ground (arith, h))

last_assistant-none :
    (messages : List Message) (i : ℕ)
    → any (has_role "assistant") messages ≡ false
    → last_assistant messages i ≡ none
unfolding last_assistant
last_assistant-none messages zero h = refl
last_assistant-none messages (suc i) h =
    rw (role_at-any "assistant" messages i h) (last_assistant-none messages i h)

role_at-middle :
    (role : String) (before : List Message) (m : Message) (after : List Message)
    → role_at role (before ++ m ∷ after) (length before) ≡ has_role role m
role_at-middle role [] m after = refl
role_at-middle role (x ∷ before) m after = role_at-middle role before m after

role_at-behind :
    (role : String) (before : List Message) (m : Message) (after : List Message) (i : ℕ)
    → any (has_role role) after ≡ false
    → length before < i
    → role_at role (before ++ m ∷ after) i ≡ false
role_at-behind role [] m after zero h l = absurd (omega arith)
role_at-behind role [] m after (suc i) h l = role_at-any role after i h
role_at-behind role (x ∷ before) m after zero h l = absurd (omega arith)
role_at-behind role (x ∷ before) m after (suc i) h l =
    role_at-behind role before m after i h (omega arith)

module _ (before : List Message) (m : Message) (after : List Message)
    (asks : has_role "assistant" m ≡ true) (last : any (has_role "assistant") after ≡ false) where
  last_assistant-middle :
      (i : ℕ)
      → length before ≤ i
      → last_assistant (before ++ m ∷ after) (suc i) ≡ some (length before)
  unfolding last_assistant
  last_assistant-middle zero h =
      let e : length before ≡ 0 = omega arith in
      rw
        (sym (ap (role_at "assistant" (before ++ m ∷ after)) e)
          ∙ role_at-middle "assistant" before m after
          ∙ asks)
        (ap some (sym e))
  last_assistant-middle (suc i) h = elim (Bool-cases (leb (length before) i)) [
    | inl le ↦
        rw (role_at-behind "assistant" before m after (suc i) last (ground (arith, le)))
          (last_assistant-middle i (ground (arith, le)))
    | inr gt ↦
        let e : length before ≡ suc i = ground (arith, gt, h) in
        rw
          (sym (ap (role_at "assistant" (before ++ m ∷ after)) e)
            ∙ role_at-middle "assistant" before m after
            ∙ asks)
          (ap some (sym e))
  ]

pub protected_start-few :
    (messages : List Message)
    → count_users messages < 3
    → any (has_role "assistant") messages ≡ false
    → protected_start messages ≡ length messages
unfolding protected_start
protected_start-few messages few silent = ground (
  arith,
  third_user-none messages (length messages) 0 (rw (take-whole messages) (omega arith)),
  last_assistant-none messages (length messages) silent,
)

pub protected_start-middle :
    (before : List Message) (m : Message) (after : List Message)
    → count_users (before ++ m ∷ after) < 3
    → has_role "assistant" m ≡ true
    → any (has_role "assistant") after ≡ false
    → protected_start (before ++ m ∷ after) ≡ length before
unfolding protected_start
protected_start-middle before m after few asks last =
    let whole = before ++ m ∷ after in
    let size : length whole ≡ suc (length before + length after) =
      omega (arith, length-append before (m ∷ after)) in
    let found : last_assistant whole (length whole) ≡ some (length before) =
      ap (last_assistant whole) size
      ∙ last_assistant-middle before m after asks last (length before + length after)
          (omega arith) in
    ground
      (arith, found, third_user-none whole (length whole) 0 (rw (take-whole whole) (omega arith)))
