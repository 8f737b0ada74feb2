-- ===== src/Relay/Commands/Finals.antt =====
-- The results that end a command of src/relay/relay_manager.cpp, and what stands in front of its run.
use kabot.Base.{
  ℕ, suc, ◌+◌, Bool, true, false, not, ◌&&◌, String, Option, none, some, List, [], ◌∷◌, ◌++◌, ◌≡◌,
  refl, ◌∙◌, ap, str_eq, eq_refl, arith, if◌then◌else◌,
}
use kabot.Base.Json.{Json, text_at}
use kabot.Relay.Http.{returned, thrown}
use kabot.Relay.Commands.{
  Worker, M, ◌>>=◌, ◌>>◌, try_or, build_activity_payload, build_ack_payload, build_result_payload,
  activity, run_command, report_failure, dispatch,
}

abbrev says : String → String → Json → Bool
says key value j = elim (text_at key j) [ none ↦ false | some s ↦ str_eq s value ]

-- A result of a command that ends it.
unfoldable pub is_final : String → Json → Bool
unfolding text_at
is_final command_id j =
    says "type" "command.result" j
    && says "commandId" command_id j
    && not (says "status" "running" j)

unfoldable pub finals : String → List Json → ℕ
unfolding is_final
finals command_id [] = 0
finals command_id (j ∷ js) = (if is_final command_id j then 1 else 0) + finals command_id js

finals-append :
    (command_id : String) (js : List Json) (j : Json)
    → finals command_id (js ++ j ∷ [])
      ≡ finals command_id js + (if is_final command_id j then 1 else 0)
unfolding finals
finals-append command_id [] j = omega arith
finals-append command_id (k ∷ js) j = omega (arith, finals-append command_id js j)

pub activity-is_final :
    (command_id now status summary current : String)
    → is_final command_id (build_activity_payload now status summary current) ≡ false
unfolding is_final build_activity_payload
activity-is_final command_id now status summary current = refl

ack-is_final : (command_id id : String) → is_final command_id (build_ack_payload id) ≡ false
unfolding is_final build_ack_payload
ack-is_final command_id id = refl

result-is_final :
    (command_id status field_name field_value : String) (progress : Option String)
    → is_final command_id (build_result_payload command_id status field_name field_value progress)
      ≡ not (str_eq status "running")
unfolding is_final build_result_payload
result-is_final command_id status field_name field_value progress = rw (eq_refl command_id) refl

-- The connection is up: each message is sent, and `sent` lists what was.
pub record IsUp {S : Type 0} (w : Worker S) (sent : S → List Json) : Type 0 where
  pub passes : (j : Json) (s : S) → (w.send_json j s).1 ≡ returned true
  pub logs : (j : Json) (s : S) → sent (w.send_json j s).0 ≡ sent s ++ j ∷ []

module _ {S : Type 0} (w : Worker S) (sent : S → List Json) (up : IsUp w sent) where
  pub sent_one :
      (command_id : String) (j : Json) (s : S) (b : Bool)
      → is_final command_id j ≡ b
      → finals command_id (sent (w.send_json j s).0)
        ≡ finals command_id (sent s) + (if b then 1 else 0)
  sent_one command_id j s b e = rw (up.logs j s, finals-append command_id (sent s) j, e) refl

  send_then :
      {A : Type 0} (j : Json) (k : M S A) (s : S) → (w.send_json j >> k) s ≡ k (w.send_json j s).0
  send_then j k s = rw (up.passes j s, ◌>>◌, ◌>>=◌) refl

  -- The states behind the three messages in front of the run.
  abbrev acked : String → S → S
  acked command_id s = (w.send_json (build_ack_payload command_id) s).0

  abbrev told : String → S → S
  told command_id s =
      (activity w "busy" "Executing relay command" command_id (acked command_id s)).0

  abbrev pub started : String → S → S
  started command_id s =
      (w.send_json (build_result_payload command_id "running" "" "" (some "0"))
        (told command_id s)).0

  pub dispatch-started :
      (command_id payload : String) (s : S)
      → dispatch w command_id payload s
        ≡ try_or
            (run_command w command_id payload)
            (report_failure w command_id)
            (started command_id s)
  unfolding dispatch
  dispatch-started command_id payload s =
      let run : M S Bool =
        try_or (run_command w command_id payload) (report_failure w command_id) in
      let announce : M S Bool =
        w.send_json (build_result_payload command_id "running" "" "" (some "0")) >> run in
      send_then (build_ack_payload command_id)
        (activity w "busy" "Executing relay command" command_id >> announce) s
      ∙ send_then (build_activity_payload w.now "busy" "Executing relay command" command_id)
          announce (acked command_id s)
      ∙ send_then (build_result_payload command_id "running" "" "" (some "0")) run
          (told command_id s)

  pub finals-started :
      (command_id : String) (s : S)
      → finals command_id (sent (started command_id s)) ≡ finals command_id (sent s)
  finals-started command_id s = omega (
    arith,
    sent_one command_id (build_ack_payload command_id) s false (ack-is_final command_id command_id),
    sent_one command_id (build_activity_payload w.now "busy" "Executing relay command" command_id)
        (acked command_id s) false
        (activity-is_final command_id w.now "busy" "Executing relay command" command_id),
    sent_one command_id (build_result_payload command_id "running" "" "" (some "0"))
        (told command_id s) false (result-is_final command_id "running" "" "" (some "0")),
  )

  -- A final result and an activity behind it.
  pub ended :
      (command_id status field value activity_status summary current : String)
      (progress : Option String) (s : S)
      → str_eq status "running" ≡ false
      → let m : M S Bool =
          w.send_json (build_result_payload command_id status field value progress)
          >> activity w activity_status summary current in
        ((m s).1 ≡ returned true)
        × (finals command_id (sent (m s).0) ≡ suc (finals command_id (sent s)))
  ended command_id status field value activity_status summary current progress s e =
      let result : Json = build_result_payload command_id status field value progress in
      let s' : S = (w.send_json result s).0 in
      rw (send_then result (activity w activity_status summary current) s) (
        up.passes (build_activity_payload w.now activity_status summary current) s',
        omega (
          arith,
          sent_one command_id result s true
              (result-is_final command_id status field value progress ∙ ap not e),
          sent_one command_id (build_activity_payload w.now activity_status summary current) s'
              false (activity-is_final command_id w.now activity_status summary current),
        ),
      )

pub try_returned :
    {S : Type 0} (m : M S Bool) (handler : Option String → M S Bool) (s : S) (a : Bool)
    → (m s).1 ≡ returned a
    → try_or m handler s ≡ ((m s).0, returned a)
try_returned m handler s a e = rw (e, try_or) refl

pub try_thrown :
    {S : Type 0} (m : M S Bool) (handler : Option String → M S Bool) (s : S) (what : Option String)
    → (m s).1 ≡ thrown what
    → try_or m handler s ≡ handler what (m s).0
try_thrown m handler s what e = rw (e, try_or) refl

pub bind_returned :
    {S A B : Type 0} (m : M S A) (f : A → M S B) (s : S) (a : A)
    → (m s).1 ≡ returned a
    → (m >>= f) s ≡ f a (m s).0
bind_returned m f s a e = rw (e, ◌>>=◌) refl

pub bind_thrown :
    {S A B : Type 0} (m : M S A) (f : A → M S B) (s : S) (what : Option String)
    → (m s).1 ≡ thrown what
    → (m >>= f) s ≡ ((m s).0, thrown what)
bind_thrown m f s what e = rw (e, ◌>>=◌) refl
