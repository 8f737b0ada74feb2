-- ===== src/Relay/Commands/Examples.antt =====
-- A worker of src/relay/relay_manager.cpp whose connection is up, and an agent that reports one phase.
use kabot.Base.{suc, true, some, List, [], ◌∷◌, ◌++◌, ◌≡◌, refl}
use kabot.Base.Json.{Json, text, number, object_of}
use kabot.Agents.Loop.{processing}
use kabot.Config.Defaults.{new_managed_agent}
use kabot.Relay.Http.{returned, thrown}
use kabot.Relay.Calls.{text_value}
use kabot.Relay.Commands.{Worker, handle_message}
use kabot.Relay.Commands.Finals.{IsUp, finals}
use kabot.Relay.Commands.Answered.{IsQuiet, handle_message-answered}

abbrev worker : Worker (List Json)
worker = record {
  config = record new_managed_agent { name = "main"; agent_id = "a1" };
  send_json = λ j s. (s ++ j ∷ [], returned true);
  process_direct = λ agent payload key observer s. ((observer processing s).0, returned "done");
  now = "2025-01-01T00:00:00Z";
  type_error = "type must be string";
}

worker-IsUp : IsUp worker (λ s. s)
worker-IsUp = record { passes = λ j s. refl; logs = λ j s. refl }

worker-IsQuiet : IsQuiet worker (λ s. s)
worker-IsQuiet = record { only_observes = λ agent payload key id observer h s. h processing s }

abbrev command : Json
command =
    object_of (
      ("type", text "command.dispatch") ∷ ("commandId", text "c1") ∷ ("payload", text "hello") ∷ [])

answers : finals "c1" (handle_message worker command []).0 ≡ 1
unfolding handle_message finals
answers = refl

-- A type that is no text ends the connection.
wrong_type :
    (handle_message worker (object_of (("type", number "1") ∷ [])) []).1
    ≡ thrown (some "type must be string")
unfolding handle_message
wrong_type = refl

handle_message-answered_example :
    ((handle_message worker command []).1 ≡ returned true)
    × (finals "c1" (handle_message worker command []).0 ≡ suc (finals "c1" []))
unfolding text_value
handle_message-answered_example =
    handle_message-answered worker (λ s. s) worker-IsUp worker-IsQuiet command "c1" "" "hello" []
      refl refl refl refl refl refl
