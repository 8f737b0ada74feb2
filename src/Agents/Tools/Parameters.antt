-- ===== src/Agents/Tools/Parameters.antt =====
-- What src/agent/tools/tool_schema_validator.cpp asks of each parameter of a call.
use kabot.Base.{
  Bool, true, false, not, ◌&&◌, ◌||◌, String, none, some, List, [], ◌∷◌, ◌≡◌, refl, sym, ◌∙◌, ap,
  all, empty, arith, inl, inr, Bool-cases, Option-cases, is_some,
}
use kabot.Base.Dict.{Dict}
use kabot.Base.Json.{Json, field}
use kabot.Agents.Tools.{
  Readers, is_given, matches_type, type_name, is_enum_valid, missing_error, property_error,
  parameter_error, parameters_error,
}

-- What the schema asks of one parameter.
unfoldable pub is_allowed_value : Readers → Json → String → String → Bool
is_allowed_value readers properties key value = empty value || elim (field key properties) [
  | none ↦ true
  | some prop ↦ elim (field "type" prop) [
    | none ↦ true
    | some type ↦
        matches_type readers (type_name type) value
        && elim (field "enum" prop) [ none ↦ true | some values ↦ is_enum_valid values value ]
  ]
]

missing_error-is_given :
    (tool : String) (keys : List String) (params : Dict String)
    → is_some (missing_error tool keys params) ≡ not (all (λ key. is_given key params) keys)
unfolding missing_error
missing_error-is_given tool [] params = refl
missing_error-is_given tool (key ∷ keys) params = elim (Bool-cases (is_given key params)) [
  | inl g ↦ rw (missing_error, g) (missing_error-is_given tool keys params)
  | inr g ↦ rw (missing_error, g) refl
]

property_error-fits :
    (readers : Readers) (tool key value : String) (prop : Json)
    → is_some (property_error readers tool key value prop)
      ≡ not (elim (field "type" prop) as (λ x. Bool) [
        | none ↦ true
        | some type ↦
            matches_type readers (type_name type) value
            && elim (field "enum" prop) [ none ↦ true | some values ↦ is_enum_valid values value ]
      ])
unfolding property_error
property_error-fits readers tool key value prop = elim (Option-cases (field "type" prop)) [
  | inl t ↦ rw (property_error, t) refl
  | inr (type, t) ↦ elim (Bool-cases (matches_type readers (type_name type) value)) [
    | inr w ↦ rw (property_error, t, w) refl
    | inl w ↦ elim (Option-cases (field "enum" prop)) [
      | inl e ↦ rw (property_error, t, w, e) refl
      | inr (values, e) ↦ elim (Bool-cases (is_enum_valid values value)) [
        | inl u ↦ rw (property_error, t, w, e, u) refl
        | inr u ↦ rw (property_error, t, w, e, u) refl
      ]
    ]
  ]
]

parameter_error-is_allowed_value :
    (readers : Readers) (tool : String) (properties : Json) (key value : String)
    → is_some (parameter_error readers tool properties key value)
      ≡ not (is_allowed_value readers properties key value)
unfolding parameter_error property_error is_allowed_value
parameter_error-is_allowed_value readers tool properties key value =
    elim (Bool-cases (empty value)) [
      | inl v ↦ rw (parameter_error, is_allowed_value, v) refl
      | inr v ↦ elim (Option-cases (field key properties)) [
        | inl f ↦ rw (parameter_error, is_allowed_value, v, f) refl
        | inr (prop, f) ↦
            rw (parameter_error, is_allowed_value, v, f)
              (property_error-fits readers tool key value prop)
      ]
    ]

pub required_given :
    (tool : String) (keys : List String) (params : Dict String) (b : Bool)
    → is_some (missing_error tool keys params) ≡ b
    → all (λ key. is_given key params) keys ≡ not b
required_given tool keys params b h = ground (arith, missing_error-is_given tool keys params)

is_allowed :
    (readers : Readers) (tool : String) (properties : Json) (key value : String) (b : Bool)
    → not (is_allowed_value readers properties key value) ≡ b
    → is_allowed_value readers properties key value ≡ not b
is_allowed readers tool properties key value b h = ground arith

pub parameters_error-is_allowed_value :
    (readers : Readers) (tool : String) (properties : Json) (params : Dict String)
    → is_some (parameters_error readers tool properties params)
      ≡ not (
          all
            (λ (entry : String × String). is_allowed_value readers properties entry.0 entry.1)
            params)
unfolding parameters_error
parameters_error-is_allowed_value readers tool properties [] = refl
parameters_error-is_allowed_value readers tool properties ((key, value) ∷ params) =
    elim (Option-cases (parameter_error readers tool properties key value)) [
      | inl e ↦
          rw
            (
              parameters_error,
              e,
              is_allowed readers tool properties key value false (
                  sym (parameter_error-is_allowed_value readers tool properties key value)
                  ∙ ap is_some e),
            )
            (parameters_error-is_allowed_value readers tool properties params)
      | inr (error, e) ↦
          rw
            (
              parameters_error,
              e,
              is_allowed readers tool properties key value true (
                  sym (parameter_error-is_allowed_value readers tool properties key value)
                  ∙ ap is_some e),
            )
            refl
    ]
