-- ===== src/Relay/Calls/Examples.antt =====
-- An answer to claim-next of src/relay/relay_manager.cpp with a task.
use kabot.Base.{true, some, ◌≡◌, ◌↔◌, refl}
use kabot.Base.Json.{text, boolean, object_of}
use kabot.Base.{[], ◌∷◌}
use kabot.Relay.Dates.{is_valid_summary_date}
use kabot.Relay.Http.{returned, Response}
use kabot.Relay.Calls.{JsonText, claim_result}
use kabot.Relay.Calls.Claimed.{Offers, claim_result-Offers}

abbrev json : JsonText
json = record {
  parse = λ s.
      some (
        object_of
          (("found", boolean true) ∷ ("task", object_of (("taskId", text "t1") ∷ [])) ∷ []));
  dump = λ j. "";
  type_error = "type must be string";
}

abbrev answer : Response
answer = record { status = 200; reason = "OK"; body = "{}" }

claimed_id : (claim_result json (returned answer)).task.task_id ≡ "t1"
unfolding claim_result
claimed_id = refl

leap_day : is_valid_summary_date "2024-02-29" ≡ true
unfolding is_valid_summary_date
leap_day = refl

claim_result-Offers_example :
    (((claim_result json (returned answer)).found ≡ true)
      × ((claim_result json (returned answer)).task ≡ (claim_result json (returned answer)).task))
    ↔ ((response : Response) × (returned answer ≡ returned response)
        × Offers json response (claim_result json (returned answer)).task)
claim_result-Offers_example =
    claim_result-Offers json (returned answer) (claim_result json (returned answer)).task
