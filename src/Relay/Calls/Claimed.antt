-- ===== src/Relay/Calls/Claimed.antt =====
-- When ClaimNextTask of src/relay/relay_manager.cpp has a task.
use kabot.Base.{
  ℕ, Bool, true, false, String, none, some, ◌≡◌, refl, sym, ap, ◌∙◌, Bool-cases, inl, inr,
  Option-cases, ◌↔◌, subst,
}
use kabot.Base.Json.{Json, is_object, object_at}
use kabot.Relay.Http.{Outcome, returned, thrown, Response, is_success}
use kabot.Relay.Calls.Described.{Describes, parse_relay_task-Describes, object_at-is_object}
use kabot.Relay.Calls.{
  JsonText, RelayTask, RelayTaskClaimResult, boolean_value, parse_relay_task, claimed_from,
  claim_result,
}

-- An answer with success whose body says that there is a task, with the task.
pub record Offers (json : JsonText) (response : Response) (task : RelayTask) : Type 0 where
  pub success : is_success response.status ≡ true
  pub body : Json
  pub parsed : json.parse response.body ≡ some body
  pub object : is_object body ≡ true
  pub found : boolean_value "found" body ≡ some true
  pub member : Json
  pub held : object_at "task" body ≡ some member
  pub read : parse_relay_task json.dump member ≡ some task
  pub described : Describes json.dump member task

module _ (json : JsonText) (status : ℕ) (body : String) where
  abbrev claimed : RelayTaskClaimResult
  claimed = claimed_from json status body

  not_parsed : json.parse body ≡ none → claimed.found ≡ false
  unfolding claimed_from
  not_parsed e = rw (e, claimed_from) refl

  module _ (j : Json) (parsed : json.parse body ≡ some j) where
    no_object : is_object j ≡ false → claimed.found ≡ false
    unfolding claimed_from
    no_object e = rw (parsed, claimed_from, e) refl

    module _ (obj : is_object j ≡ true) where
      no_found : boolean_value "found" j ≡ none → claimed.found ≡ false
      unfolding claimed_from
      no_found e = rw (parsed, claimed_from, obj, e) refl

      not_found : boolean_value "found" j ≡ some false → claimed.found ≡ false
      unfolding claimed_from
      not_found e = rw (parsed, claimed_from, obj, e) refl

      module _ (found : boolean_value "found" j ≡ some true) where
        no_task_member : object_at "task" j ≡ none → claimed.found ≡ false
        unfolding claimed_from
        no_task_member e = rw (parsed, claimed_from, obj, found, e) refl

        module _ (t : Json) (held : object_at "task" j ≡ some t) where
          not_read : parse_relay_task json.dump t ≡ none → claimed.found ≡ false
          unfolding claimed_from
          not_read e = rw (parsed, claimed_from, obj, found, held, e) refl

          read_task :
              (task : RelayTask) → parse_relay_task json.dump t ≡ some task → claimed.task ≡ task
          unfolding claimed_from
          read_task task e = rw (parsed, claimed_from, obj, found, held, e) refl

false_found : {b : Bool} {A : Type 0} → b ≡ true → b ≡ false → A
false_found h e = absurd (cc (h, e))

claimed_from-Offers :
    (json : JsonText) (response : Response)
    → is_success response.status ≡ true
    → (claimed_from json response.status response.body).found ≡ true
    → Offers json response (claimed_from json response.status response.body).task
claimed_from-Offers json response ok h = elim (Option-cases (json.parse response.body)) [
  | inl e ↦ false_found h (not_parsed json response.status response.body e)
  | inr (j, parsed) ↦ elim (Bool-cases (is_object j)) [
    | inr e ↦ false_found h (no_object json response.status response.body j parsed e)
    | inl obj ↦ elim (Option-cases (boolean_value "found" j)) [
      | inl e ↦ false_found h (no_found json response.status response.body j parsed obj e)
      | inr (false, e) ↦ false_found h (not_found json response.status response.body j parsed obj e)
      | inr (true, found) ↦ elim (Option-cases (object_at "task" j)) [
        | inl e ↦
            false_found h (no_task_member json response.status response.body j parsed obj found e)
        | inr (t, held) ↦ elim (Option-cases (parse_relay_task json.dump t)) [
          | inl e ↦
              false_found h
                (not_read json response.status response.body j parsed obj found t held e)
          | inr (task, e) ↦
              let r =
                e
                ∙ sym (
                    ap some (
                      read_task json response.status response.body j parsed obj found t held task
                        e)) in
              record {
                success = ok;
                body = j;
                parsed = parsed;
                object = obj;
                found = found;
                member = t;
                held = held;
                read = r;
                described =
                    parse_relay_task-Describes json.dump t _ (object_at-is_object "task" j t held)
                      r;
              }
        ]
      ]
    ]
  ]
]

claim_result-offered :
    (json : JsonText) (outcome : Outcome Response)
    → (claim_result json outcome).found ≡ true
    → (response : Response) × (outcome ≡ returned response)
      × Offers json response (claim_result json outcome).task
unfolding claim_result
claim_result-offered json (thrown what) h = false_found h refl
claim_result-offered json (returned response) h = elim (Bool-cases (is_success response.status)) [
  | inl ok ↦
      (response, refl, rw (ok, claim_result) (claimed_from-Offers json response ok (by_success ok)))
  | inr e ↦ false_found h (rw (e, claim_result) refl)
]
  where
    by_success :
        is_success response.status ≡ true
        → (claimed_from json response.status response.body).found ≡ true
    by_success ok = rw (ok, claim_result) at h

Offers-claim_result :
    (json : JsonText) (response : Response) (task : RelayTask)
    → Offers json response task
    → ((claim_result json (returned response)).found ≡ true)
      × ((claim_result json (returned response)).task ≡ task)
unfolding claim_result claimed_from
Offers-claim_result json response task o =
    rw (claim_result, o.success, claimed_from, o.parsed, o.object, o.found, o.held, o.read)
      (refl, refl)

-- A worker has a task to hand out exactly when the answer has a success status and an object as its body that says that a
-- task was found and holds one that can be read. The task is then the one that the body holds: each text and the flag is
-- the member of its own name, or empty and false where that is left out, the chat and the project are those of their
-- objects, and the maps and lists those that are read under their names.
pub claim_result-Offers :
    (json : JsonText) (outcome : Outcome Response) (task : RelayTask)
    → (((claim_result json outcome).found ≡ true) × ((claim_result json outcome).task ≡ task))
      ↔ ((response : Response) × (outcome ≡ returned response) × Offers json response task)
claim_result-Offers json outcome task = (given, back)
  where
    given :
        ((claim_result json outcome).found ≡ true) × ((claim_result json outcome).task ≡ task)
        → (response : Response) × (outcome ≡ returned response) × Offers json response task
    given (h, e) =
        let (response, o, offers) = claim_result-offered json outcome h in
        (response, o, subst (λ t. Offers json response t) e offers)

    back :
        ((response : Response) × (outcome ≡ returned response) × Offers json response task)
        → ((claim_result json outcome).found ≡ true) × ((claim_result json outcome).task ≡ task)
    back (response, o, offers) = rw o (Offers-claim_result json response task offers)
