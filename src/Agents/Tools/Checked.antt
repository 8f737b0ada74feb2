-- ===== src/Agents/Tools/Checked.antt =====
-- ToolRegistry::Execute of src/agent/tools/tool_registry.cpp: which calls reach a tool.
use kabot.Base.{
  fun_ext, ◌∙◌, Bool, true, false, not, ◌&&◌, String, Option, none, some, List, [], ◌≡◌, refl, ap,
  all, arith, inl, inr, Option-cases, if◌then◌else◌, is_some,
}
use kabot.Base.Dict.{Dict, lookup, emplace}
use kabot.Bus.{◌<+>◌}
use kabot.Base.Json.{null, boolean, number, text, Json, array, object, field, texts_of}
use kabot.Agents.Tools.{Readers, Tool, is_given, missing_error, parameters_error}
use kabot.Agents.Tools.Errors.{IsError, none_some, missing-IsError, parameters-IsError}
use kabot.Agents.Tools.Schema.{all_required, is_valid_value, is_valid_call}
use kabot.Agents.Tools.Compared.{required-all_required, is_allowed_value-is_valid_value}
use kabot.Agents.Tools.Parameters.{
  required_given, is_allowed_value, parameters_error-is_allowed_value,
}

unfoldable pub required_keys : Json → List String
unfolding texts_of
required_keys schema = elim (field "required" schema) [ some (array js) ↦ texts_of js | _ ↦ [] ]

-- The properties that are checked: those of an object.
unfoldable pub checked_properties : Json → Option Json
checked_properties schema = elim (field "properties" schema) [
  | some (object ms) ↦ some (object ms)
  | _ ↦ none
]

-- ValidateToolInput; a schema that does not parse lets every call through.
unfoldable pub validate_tool_input : {S : Type 0} → Readers → Tool S → Dict String → Option String
unfolding missing_error parameters_error required_keys checked_properties
validate_tool_input readers tool params = elim (readers.parse tool.parameters_json) [
  | none ↦ none
  | some schema ↦ elim (missing_error tool.name (required_keys schema) params) [
    | some error ↦ some error
    | none ↦ elim (checked_properties schema) [
      | none ↦ none
      | some properties ↦ parameters_error readers tool.name properties params
    ]
  ]
]

module _ {S : Type 0} (readers : Readers) where
  unfoldable pub register : Dict (Tool S) → Tool S → Dict (Tool S)
  register tools tool = emplace tool.name tool tools

  -- Execute; `none` is an exception of the tool.
  unfoldable pub execute : Dict (Tool S) → String → Dict String → S → S × Option String
  unfolding validate_tool_input
  execute tools name params s = elim (lookup name tools) [
    | none ↦ (s, some ("Error: Tool '" <+> name <+> "' not found"))
    | some tool ↦ elim (validate_tool_input readers tool params) [
      | some error ↦ (s, some error)
      | none ↦ tool.execute params s
    ]
  ]

-- The tests that ValidateToolInput makes.
unfoldable passes : Readers → Json → Dict String → Bool
unfolding required_keys checked_properties is_allowed_value
passes readers schema params =
    all (λ key. is_given key params) (required_keys schema) && elim (checked_properties schema) [
      | none ↦ true
      | some properties ↦
          all (λ (entry : String × String). is_allowed_value readers properties entry.0 entry.1)
            params
    ]

validate_tool_input-passes :
    {S : Type 0} (readers : Readers) (tool : Tool S) (schema : Json) (params : Dict String)
    → readers.parse tool.parameters_json ≡ some schema
    → is_some (validate_tool_input readers tool params) ≡ not (passes readers schema params)
unfolding validate_tool_input passes
validate_tool_input-passes readers tool schema params p =
    elim (Option-cases (missing_error tool.name (required_keys schema) params)) [
      | inr (error, e) ↦
          rw
            (
              validate_tool_input,
              passes,
              p,
              e,
              required_given tool.name (required_keys schema) params true (ap is_some e),
            )
            refl
      | inl e ↦ elim (Option-cases (checked_properties schema)) [
        | inl c ↦
            rw
              (
                validate_tool_input,
                passes,
                p,
                e,
                c,
                required_given tool.name (required_keys schema) params false (ap is_some e),
              )
              refl
        | inr (properties, c) ↦
            rw
              (
                validate_tool_input,
                passes,
                p,
                e,
                c,
                required_given tool.name (required_keys schema) params false (ap is_some e),
              )
              (parameters_error-is_allowed_value readers tool.name properties params)
      ]
    ]

passes-is_valid_call :
    (readers : Readers) (schema : Json) (params : Dict String)
    → passes readers schema params ≡ is_valid_call readers schema params
unfolding passes is_valid_call required_keys checked_properties
passes-is_valid_call readers schema params =
    rw (required-all_required (field "required" schema) params) (
      ap
        (λ b.
          (elim (field "required" schema) as (λ x. Bool) [
            | some (array js) ↦ all_required js params
            | _ ↦ true
          ])
          && b)
        (by_properties (field "properties" schema)))
  where
    by_properties :
        (o : Option Json)
        → (elim (elim o as (λ x. Option Json) [ some (object ms) ↦ some (object ms) | _ ↦ none ])
            as (λ x. Bool) [
              | none ↦ true
              | some properties ↦
                  all
                    (λ (entry : String × String).
                      is_allowed_value readers properties entry.0 entry.1)
                    params
            ])
          ≡ (elim o as (λ x. Bool) [
            | some (object ms) ↦
                all
                  (λ (entry : String × String). is_valid_value readers (object ms) entry.0 entry.1)
                  params
            | _ ↦ true
          ])
    by_properties none = refl
    by_properties (some (object ms)) =
        ap (λ (test : String × String → Bool). all test params)
          (fun_ext (λ entry. is_allowed_value-is_valid_value readers (object ms) entry.0 entry.1))
    by_properties (some null) = refl
    by_properties (some (boolean b)) = refl
    by_properties (some (number n)) = refl
    by_properties (some (text s)) = refl
    by_properties (some (array js)) = refl

validate_tool_input-IsError :
    {S : Type 0} (readers : Readers) (tool : Tool S) (schema : Json) (params : Dict String)
    (error : String)
    → readers.parse tool.parameters_json ≡ some schema
    → validate_tool_input readers tool params ≡ some error
    → IsError error
unfolding validate_tool_input
validate_tool_input-IsError readers tool schema params error p h =
    elim (Option-cases (missing_error tool.name (required_keys schema) params)) [
      | inr (other, e) ↦
          missing-IsError tool.name (required_keys schema) params error
            (e ∙ (rw (p, e, validate_tool_input) at h))
      | inl e ↦ elim (Option-cases (checked_properties schema)) [
        | inl c ↦ none_some (rw (p, e, c, validate_tool_input) at h)
        | inr (properties, c) ↦
            parameters-IsError readers tool.name properties params error
              (rw (p, e, c, validate_tool_input) at h)
      ]
    ]

module _ {S : Type 0} (readers : Readers) where
  -- A call of a registered tool whose schema parses runs the tool exactly when its parameters are
  -- valid for that schema: each required one has a value that is not empty, and each value that is not
  -- empty is of the type that its property declares (an integer as std::stoll reads it, a number as
  -- std::stod does) and, where an enumeration stands beside the type, one of its values. Any other call
  -- leaves the state as it is and answers a text that starts with "Error: ".
  pub execute-is_valid_call :
      (tools : Dict (Tool S)) (name : String) (tool : Tool S) (schema : Json) (params : Dict String)
      (s : S)
      → lookup name tools ≡ some tool
      → readers.parse tool.parameters_json ≡ some schema
      → (rest : String) × (execute readers tools name params s ≡ (
          if is_valid_call readers schema params
          then tool.execute params s
          else (s, some ("Error: " <+> rest))))
  unfolding execute
  execute-is_valid_call tools name tool schema params s l p =
      elim (Option-cases (validate_tool_input readers tool params)) [
        | inl e ↦ ("", rw (execute, l, e, valid false (ap is_some e)) refl)
        | inr (error, e) ↦
            let (rest, same) = validate_tool_input-IsError readers tool schema params error p e in
            (rest, rw (execute, l, e, valid true (ap is_some e), same) refl)
      ]
    where
      valid :
          (b : Bool)
          → is_some (validate_tool_input readers tool params) ≡ b
          → is_valid_call readers schema params ≡ not b
      valid b h = ground (
        arith,
        validate_tool_input-passes readers tool schema params p,
        passes-is_valid_call readers schema params,
      )
