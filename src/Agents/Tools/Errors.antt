-- ===== src/Agents/Tools/Errors.antt =====
-- The texts of the errors of src/agent/tools/tool_schema_validator.cpp.
use package.text.Mathlib.TextLemmas
use kabot.Base.{
  String, none, some, List, [], ◌∷◌, ◌≡◌, empty, Option-cases, Bool-cases, inl, inr, sym, ◌∙◌,
}
use kabot.Base.Dict.{Dict}
use kabot.Base.Json.{Json, text, field}
use kabot.Bus.{◌<+>◌}
use kabot.Agents.Tools.{
  Readers, is_given, matches_type, type_name, is_enum_valid, missing_error, property_error,
  parameter_error, parameters_error,
}

pub none_some : {A : Type 0} {a : A} {B : Type 0} → none ≡ some a → B
none_some h = absurd (cc h)

some_injective : {A : Type 0} (a b : A) → some a ≡ some b → a ≡ b
some_injective a b h = cc h

-- The text of an error.
abbrev pub IsError : String → Type 0
IsError error = (rest : String) × (error ≡ "Error: " <+> rest)

pub missing-IsError :
    (tool : String) (keys : List String) (params : Dict String) (error : String)
    → missing_error tool keys params ≡ some error
    → IsError error
unfolding missing_error
missing-IsError tool [] params error h = absurd (cc h)
missing-IsError tool (key ∷ keys) params error h = elim (Bool-cases (is_given key params)) [
  | inl g ↦ missing-IsError tool keys params error (rw (g, missing_error) at h)
  | inr g ↦ (
    "missing required parameter '" <+> key <+> "' for tool '" <+> tool <+> "'",
    sym (some_injective _ error (rw (g, missing_error) at h))
        ∙ TextLemmas.append_assoc "Error: " "missing required parameter '"
            (key <+> "' for tool '" <+> tool <+> "'"),
  )
]

property-IsError :
    (readers : Readers) (tool key value : String) (prop : Json) (error : String)
    → property_error readers tool key value prop ≡ some error
    → IsError error
unfolding property_error
property-IsError readers tool key value prop error h = elim (Option-cases (field "type" prop)) [
  | inl t ↦ (none_some (rw (t, property_error) at h))
  | inr (type, t) ↦ elim (Bool-cases (matches_type readers (type_name type) value)) [
    | inr w ↦ (
      _,
      sym (some_injective _ error (rw (t, w, property_error) at h))
          ∙ TextLemmas.append_assoc "Error: " "parameter '" _,
    )
    | inl w ↦ elim (Option-cases (field "enum" prop)) [
      | inl e ↦ (none_some (rw (t, w, e, property_error) at h))
      | inr (values, e) ↦ elim (Bool-cases (is_enum_valid values value)) [
        | inl u ↦ (none_some (rw (t, w, e, u, property_error) at h))
        | inr u ↦ (
          _,
          sym (some_injective _ error (rw (t, w, e, u, property_error) at h))
              ∙ TextLemmas.append_assoc "Error: " "parameter '" _,
        )
      ]
    ]
  ]
]

parameter-IsError :
    (readers : Readers) (tool : String) (properties : Json) (key value error : String)
    → parameter_error readers tool properties key value ≡ some error
    → IsError error
unfolding parameter_error
parameter-IsError readers tool properties key value error h = elim (Bool-cases (empty value)) [
  | inl v ↦ (none_some (rw (v, parameter_error) at h))
  | inr v ↦ elim (Option-cases (field key properties)) [
    | inl f ↦ (none_some (rw (v, f, parameter_error) at h))
    | inr (prop, f) ↦
        property-IsError readers tool key value prop error (rw (v, f, parameter_error) at h)
  ]
]

pub parameters-IsError :
    (readers : Readers) (tool : String) (properties : Json) (params : Dict String) (error : String)
    → parameters_error readers tool properties params ≡ some error
    → IsError error
unfolding parameters_error
parameters-IsError readers tool properties [] error h = (none_some h)
parameters-IsError readers tool properties ((key, value) ∷ params) error h =
    elim (Option-cases (parameter_error readers tool properties key value)) [
      | inl e ↦
          parameters-IsError readers tool properties params error (rw (e, parameters_error) at h)
      | inr (other, e) ↦
          parameter-IsError readers tool properties key value error
            (e ∙ (rw (e, parameters_error) at h))
    ]
