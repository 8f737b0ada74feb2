-- ===== src/Session/History/Turns.antt =====
-- How many user turns GetHistory keeps.
use native.Mathlib.Nat.{add-zero, add-suc}
use native.Mathlib.Decide.{dec_lt}
use mathlib.Core.Bool.{false≢true}
use kabot.Base.{
  sym, ◌∙◌, ℕ, zero, suc, ◌+◌, ◌-◌, ◌≤◌, ◌<◌, ◌≡◌, ◌⊎◌, inl, inr, refl, ap, none, some, List, [],
  ◌∷◌, arith, length, drop, keep, if◌then◌else◌, Bool-cases,
}
use kabot.Session.Types.{SessionMessage}
use kabot.Session.History.{
  is_user, user_at, hard_start, scan_back, scan_start, first_user, history_start,
}
use kabot.Session.History.Window.{scan_start_cases, first_user_cases, hard_start_lem}

rejoin : (i j : ℕ) → i ≤ j → i + (j - i) ≡ j
rejoin i j h = omega arith

module _ {ToolCall : Type 0} where
  abbrev pub count_users : List (SessionMessage ToolCall) → ℕ
  count_users messages = length (keep is_user messages)

  drop_here :
      (messages : List (SessionMessage ToolCall)) (i : ℕ)
      → count_users (drop i messages)
        ≡ (if user_at messages i then 1 else 0) + count_users (drop (suc i) messages)
  drop_here [] zero = omega arith
  drop_here [] (suc i) = omega arith
  drop_here (m ∷ messages) zero = ground arith
  drop_here (m ∷ messages) (suc i) = drop_here messages i

  drop_end :
      (messages : List (SessionMessage ToolCall))
      → count_users (drop (length messages) messages) ≡ 0
  drop_end [] = refl
  drop_end (m ∷ messages) = drop_end messages

  drop_mono :
      (messages : List (SessionMessage ToolCall)) (i k : ℕ)
      → count_users (drop (i + k) messages) ≤ count_users (drop i messages)
  drop_mono messages i zero = rw (add-zero i) (omega arith)
  drop_mono messages i (suc k) = omega (
    arith,
    drop_mono messages i k,
    drop_here messages (i + k),
    ap (λ (n : ℕ). count_users (drop n messages)) (add-suc i k),
  )

  -- What the scan has seen is what stands behind it.
  scan_back_count :
      (messages : List (SessionMessage ToolCall)) (from rounds seen : ℕ)
      → seen ≡ count_users (drop (from + rounds) messages)
      → seen < 3
      → ((scan_back messages from rounds seen ≡ none) × (count_users (drop from messages) < 3))
        ⊎ ((i : ℕ) × (scan_back messages from rounds seen ≡ some i)
            × (count_users (drop i messages) ≡ 3))
  unfolding scan_back
  scan_back_count messages from zero seen e h = inl (refl, rw (← add-zero from) (omega (arith, e)))
  scan_back_count messages from (suc rounds) seen e h =
      elim (Bool-cases (user_at messages (from + rounds))) [
        | inr out ↦
            let same : scan_back messages from (suc rounds) seen
                ≡ scan_back messages from rounds seen =
              ground arith in
            let count : seen ≡ count_users (drop (from + rounds) messages) =
              ground (arith, drop_here messages (from + rounds), behind) in
            rw same (scan_back_count messages from rounds seen count h)
        | inl user ↦ elim (dec_lt seen 2) [
          | yes p ↦
              let same : scan_back messages from (suc rounds) seen
                  ≡ scan_back messages from rounds (seen + 1) =
                ground arith in
              let count : seen + 1 ≡ count_users (drop (from + rounds) messages) =
                ground (arith, drop_here messages (from + rounds), behind) in
              rw same (scan_back_count messages from rounds (seen + 1) count (omega arith))
          | no p ↦ inr (
            from + rounds,
            ground arith,
            ground (arith, drop_here messages (from + rounds), behind),
          )
        ]
      ]
    where
      behind : seen ≡ count_users (drop (suc (from + rounds)) messages)
      behind = e ∙ ap (λ (n : ℕ). count_users (drop n messages)) (add-suc from rounds)

  scan_start_turns :
      (messages : List (SessionMessage ToolCall)) (from : ℕ)
      → from ≤ length messages
      → count_users (drop (scan_start messages from) messages) ≤ 3
  unfolding scan_start
  scan_start_turns messages from h = ground (
    arith,
    scan_back_count messages from (length messages - from) 0
        (rw (rejoin from (length messages) h, drop_end messages)) (omega arith),
  )

  turns_mono :
      (messages : List (SessionMessage ToolCall)) (i j : ℕ)
      → i ≤ j
      → count_users (drop j messages) ≤ count_users (drop i messages)
  turns_mono messages i j h = omega (
    arith,
    drop_mono messages i (j - i),
    ap (λ (n : ℕ). count_users (drop n messages)) (rejoin i j h),
  )

  start_turns :
      (messages : List (SessionMessage ToolCall)) (from : ℕ)
      → from ≤ length messages
      → count_users (drop (first_user messages (scan_start messages from)) messages) ≤ 3
  start_turns messages from h = elim (scan_start_cases messages from h) [
    | inl (same, _) ↦ below (omega (arith, same, h))
    | inr (_, inside, _, _) ↦ below (omega (arith, inside))
  ]
    where
      below :
          scan_start messages from ≤ length messages
          → count_users (drop (first_user messages (scan_start messages from)) messages) ≤ 3
      below in_range =
          let after : scan_start messages from ≤ first_user messages (scan_start messages from) =
            ground (arith, first_user_cases messages (scan_start messages from) in_range) in
          omega (
            arith,
            scan_start_turns messages from h,
            turns_mono messages (scan_start messages from)
                (first_user messages (scan_start messages from)) after,
          )

  from_turns :
      (messages : List (SessionMessage ToolCall)) (from : ℕ)
      → from ≤ length messages
      → length messages ≤ first_user messages (scan_start messages from)
      → count_users (drop from messages) ≤ 3
  from_turns messages from h out = elim (scan_start_cases messages from h) [
    | inl (same, _) ↦ rw same at (scan_start_turns messages from h)
    | inr (_, inside, user, _) ↦
        elim (first_user_cases messages (scan_start messages from) (omega (arith, inside))) [
          | inl (_, none_from) ↦
              absurd (
                false≢true (sym (none_from (scan_start messages from) (omega arith) inside) ∙ user))
          | inr (_, short, _) ↦ absurd (omega (arith, short, out))
        ]
  ]

  -- Whatever the limit on messages, at most three user turns are kept.
  pub history_turns :
      (max_messages : ℕ) (messages : List (SessionMessage ToolCall))
      → count_users (drop (history_start max_messages messages) messages) ≤ 3
  unfolding history_start
  history_turns max_messages messages = ground (
    arith,
    from_in,
    start_turns messages (hard_start max_messages messages) from_in,
    from_turns messages (hard_start max_messages messages) from_in,
  )
    where
      from_in : hard_start max_messages messages ≤ length messages
      from_in = omega (arith, hard_start_lem max_messages messages)
