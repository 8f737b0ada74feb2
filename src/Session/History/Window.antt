-- ===== src/Session/History/Window.antt =====
-- Which part of the conversation GetHistory keeps.
use native.Mathlib.Decide.{dec_lt}
use mathlib.Core.Bool.{false≢true}
use kabot.Base.{
  sym, ◌∙◌, ℕ, zero, suc, ◌+◌, ◌-◌, ◌≤◌, ◌<◌, min, ◌≡◌, ◌⊎◌, inl, inr, true, false, none, some,
  List, arith, length, Bool-cases, Option-cases,
}
use kabot.Session.Types.{SessionMessage}
use kabot.Session.History.{
  user_at, hard_start, scan_back, skip_to_user, scan_start, first_user, history_start,
}

module _ {ToolCall : Type 0} where
  scan_back_range :
      (messages : List (SessionMessage ToolCall)) (from rounds seen i : ℕ)
      → scan_back messages from rounds seen ≡ some i
      → (from ≤ i) × (i < from + rounds) × (user_at messages i ≡ true)
  unfolding scan_back
  scan_back_range messages from zero seen i h = ground arith
  scan_back_range messages from (suc rounds) seen i h = ground (
    arith,
    scan_back_range messages from rounds (seen + 1) i,
    scan_back_range messages from rounds seen i,
  )

  skip_to_user_range :
      (messages : List (SessionMessage ToolCall)) (rounds start : ℕ)
      → (start ≤ skip_to_user messages rounds start)
        × (skip_to_user messages rounds start ≤ start + rounds)
        × (skip_to_user messages rounds start < start + rounds
            → user_at messages (skip_to_user messages rounds start) ≡ true)
  unfolding skip_to_user
  skip_to_user_range messages zero start = ground arith
  skip_to_user_range messages (suc rounds) start =
      ground (arith, skip_to_user_range messages rounds (start + 1))

  -- Skipping to the end means that there was no user message.
  skip_to_user_end :
      (messages : List (SessionMessage ToolCall)) (rounds start i : ℕ)
      → skip_to_user messages rounds start ≡ start + rounds
      → start ≤ i
      → i < start + rounds
      → user_at messages i ≡ false
  unfolding skip_to_user
  skip_to_user_end messages zero start i h a b = absurd (omega arith)
  skip_to_user_end messages (suc rounds) start i h a b =
      elim (Bool-cases (user_at messages start)) [
        | inl e ↦ absurd (omega (arith, rw e at h))
        | inr e ↦ elim (dec_lt start i) [
          | yes p ↦
              skip_to_user_end messages rounds (start + 1) i (omega (arith, rw e at h))
                (omega arith) (omega arith)
          | no p ↦ let same : start ≡ i = omega arith in rw (← same) e
        ]
      ]

  pub hard_start_lem :
      (max_messages : ℕ) (messages : List (SessionMessage ToolCall))
      → hard_start max_messages messages + min max_messages (length messages) ≡ length messages
  unfolding hard_start
  hard_start_lem max_messages messages = ground arith

  pub scan_start_cases :
      (messages : List (SessionMessage ToolCall)) (from : ℕ)
      → from ≤ length messages
      → ((scan_start messages from ≡ from)
          × (scan_back messages from (length messages - from) 0 ≡ none))
        ⊎ ((from ≤ scan_start messages from)
            × (scan_start messages from < length messages)
            × (user_at messages (scan_start messages from) ≡ true)
            × (scan_back messages from (length messages - from) 0
                ≡ some (scan_start messages from)))
  unfolding scan_start
  scan_start_cases messages from h =
      elim (Option-cases (scan_back messages from (length messages - from) 0)) [
        | inl e ↦ inl (ground arith, e)
        | inr (i, e) ↦
            let r = scan_back_range messages from (length messages - from) 0 i e in
            let k : scan_start messages from ≡ i = ground arith in
            inr (omega (arith, k, r.0), omega (arith, k, r.1), rw k r.2, rw k e)
      ]

  pub first_user_cases :
      (messages : List (SessionMessage ToolCall)) (start : ℕ)
      → start ≤ length messages
      → ((first_user messages start ≡ length messages)
          × ((i : ℕ) → start ≤ i → i < length messages → user_at messages i ≡ false))
        ⊎ ((start ≤ first_user messages start)
            × (first_user messages start < length messages)
            × (user_at messages (first_user messages start) ≡ true))
  unfolding first_user
  first_user_cases messages start h =
      let r = skip_to_user_range messages (length messages - start) start in
      elim (dec_lt (skip_to_user messages (length messages - start) start) (length messages)) [
        | yes p ↦ inr (r.0, p, r.2 (omega arith))
        | no p ↦
            let e : skip_to_user messages (length messages - start) start ≡ length messages =
              omega (arith, r.1) in
            inl (
              e,
              λ i a b.
                  skip_to_user_end messages (length messages - start) start i (omega (arith, e)) a
                    (omega arith),
            )
      ]

  -- The first message kept is one of the last `max_messages`, so at most that many are kept, and
  -- some are if there are any. It is a user message unless there is none among those, in which case
  -- all of them are kept.
  pub history_start_cases :
      (max_messages : ℕ) (messages : List (SessionMessage ToolCall))
      → ((history_start max_messages messages ≡ hard_start max_messages messages)
          × ((i : ℕ)
              → hard_start max_messages messages ≤ i
              → i < length messages
              → user_at messages i ≡ false))
        ⊎ ((hard_start max_messages messages ≤ history_start max_messages messages)
            × (history_start max_messages messages < length messages)
            × (user_at messages (history_start max_messages messages) ≡ true))
  unfolding history_start
  history_start_cases max_messages messages = elim (first_user_cases messages start start_in) [
    | inl (e, none_from) ↦ elim (scan_start_cases messages from from_in) [
      | inl (same, _) ↦ inl (ground (arith, e), λ i a b. none_from i (omega (arith, same, a)) b)
      | inr (_, inside, found, _) ↦
          absurd (false≢true (sym (none_from start (omega arith) inside) ∙ found))
    ]
    | inr (a, b, c) ↦
        let kept : history_start max_messages messages ≡ first_user messages start =
          ground (arith, b) in
        inr (omega (arith, kept, a, from_start), omega (arith, kept, b), rw kept c)
  ]
    where
      from : ℕ
      from = hard_start max_messages messages

      from_in : from ≤ length messages
      from_in = omega (arith, hard_start_lem max_messages messages)

      start : ℕ
      start = scan_start messages from

      start_cases : (start ≤ length messages) × (from ≤ start)
      start_cases = ground (arith, from_in, scan_start_cases messages from from_in)

      start_in : start ≤ length messages
      start_in = start_cases.0

      from_start : from ≤ start
      from_start = start_cases.1
