-- ===== src/Channels/Sending.antt =====
-- How often an outbound message is sent: SendWithRetry of src/channels/channel_manager.cpp.
use kabot.Base.{
  ℕ, zero, suc, ◌+◌, ◌<◌, Bool, true, false, ◌&&◌, String, List, ◌≡◌, refl, sym, member, arith,
  empty, if◌then◌else◌, Bool-cases, inl, inr, ◌⊎◌,
}
use kabot.Bus.{OutboundMessage, or_else}
use kabot.Channels.{max_attempts, send_loop, send_with_retry, nothing_listed, is_typing}

-- The outcome `o` of the attempts from `attempt` on: either one of them is the first to succeed and
-- the last to be made, or all `left` of them are made and fail.
abbrev pub IsOutcome : (ℕ → Bool) → ℕ → ℕ → Bool × ℕ → Type 0
IsOutcome send attempt left o =
    ((k : ℕ) × (o ≡ (true, suc k))
      × (k < left)
      × (send (attempt + k) ≡ true)
      × ((i : ℕ) → i < k → send (attempt + i) ≡ false))
    ⊎ (o ≡ (false, left)) × ((i : ℕ) → i < left → send (attempt + i) ≡ false)

at_same : (send : ℕ → Bool) {b : Bool} (i j : ℕ) → i ≡ j → send i ≡ b → send j ≡ b
at_same send i j e h = rw (sym e) h

first_fails :
    (send : ℕ → Bool) (attempt k : ℕ)
    → send attempt ≡ false
    → ((i : ℕ) → i < k → send (suc attempt + i) ≡ false)
    → (i : ℕ) → i < suc k
    → send (attempt + i) ≡ false
first_fails send attempt k e rest zero l = at_same send attempt (attempt + 0) (omega arith) e
first_fails send attempt k e rest (suc i) l =
    at_same send (suc attempt + i) (attempt + suc i) (omega arith) (rest i (omega arith))

send_loop_lem :
    (send : ℕ → Bool) (attempt left : ℕ) → IsOutcome send attempt left (send_loop send attempt left)
unfolding send_loop
send_loop_lem send attempt zero = inr (refl, λ i l. absurd (omega arith))
send_loop_lem send attempt (suc left) = elim (Bool-cases (send attempt)) [
  | inl e ↦ inl (
    0,
    rw e refl,
    omega arith,
    at_same send attempt (attempt + 0) (omega arith) e,
    λ i l. absurd (omega arith),
  )
  | inr e ↦ elim (send_loop_lem send (suc attempt) left) [
    | inl (k, o, l, ok, none_ok) ↦ inl (
      suc k,
      rw (e, o) refl,
      omega arith,
      at_same send (suc attempt + k) (attempt + suc k) (omega arith) ok,
      first_fails send attempt k e none_ok,
    )
    | inr (o, none_ok) ↦ inr (rw (e, o) refl, first_fails send attempt left e none_ok)
  ]
]

-- A message with content for a channel that exists is sent up to the first success, at most three
-- times, and a typing action at most once; the result says whether a call of Send succeeded.
pub send_with_retry_lem :
    (channels : List String) (send : String → ℕ → Bool) (msg : OutboundMessage)
    → empty msg.content && nothing_listed msg.media ≡ false
    → member (or_else msg.channel_instance msg.channel) channels ≡ true
    → IsOutcome
        (send (or_else msg.channel_instance msg.channel))
        1
        (if is_typing msg then 1 else 3)
        (send_with_retry channels send msg)
unfolding send_with_retry max_attempts
send_with_retry_lem channels send msg some_text known =
    rw (some_text, known)
      (send_loop_lem (send (or_else msg.channel_instance msg.channel)) 1 (max_attempts msg))
