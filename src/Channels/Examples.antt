-- ===== src/Channels/Examples.antt =====
-- A message whose first send fails, and a sender with two names.
use kabot.Base.{ℕ, ◌≡◌, refl, Bool, false, String, [], ◌∷◌, ◌==◌, if◌then◌else◌}
use kabot.Bus.{OutboundMessage}
use kabot.Channels.{has_pipe, is_typing, send_with_retry}
use kabot.Channels.Sending.{IsOutcome, send_with_retry_lem}

abbrev answer : OutboundMessage
answer = record {
  channel = "telegram";
  channel_instance = "";
  agent_name = "main";
  chat_id = "42";
  content = "done";
  reply_to = "";
  media = [];
  metadata = [];
}

-- Only the second call succeeds.
abbrev second_time : String → ℕ → Bool
second_time name attempt = attempt == 2

ann_plain : has_pipe "ann" ≡ false
unfolding has_pipe
ann_plain = refl

send_with_retry_lem_example :
    IsOutcome
      (second_time "telegram")
      1
      (if is_typing answer then 1 else 3)
      (send_with_retry ("telegram" ∷ []) second_time answer)
send_with_retry_lem_example = send_with_retry_lem ("telegram" ∷ []) second_time answer refl refl
