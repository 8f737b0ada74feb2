-- ===== src/Agents/Tools.antt =====
-- src/agent/tools/tool_registry.cpp and tool_schema_validator.cpp: the tools by name, and the check of
-- a call's parameters against the tool's JSON schema. Parsing JSON and std::stod are arguments. The
-- parameters are checked in the order of the list; the code takes that of its hash map.
pub mod Parameters
pub mod Schema
pub mod Compared
pub mod Errors
pub mod Checked
pub mod SendMessage
pub mod Files
mod Examples
use Prim.Native.String
use Prim.Native.Char.{Char, code}
use kabot.Base.{
  ℕ, ◌+◌, ◌-◌, ◌*◌, ◌^◌, Bool, true, false, not, ◌&&◌, ◌||◌, String, Option, none, some, List, [],
  ◌∷◌, ◌++◌, ◌==◌, ltb, leb, str_eq, empty, if◌then◌else◌, is_some,
}
use kabot.Base.Dict.{Dict, lookup, emplace}
use kabot.Base.Json.{
  Json, null, boolean, number, text, array, object, Jsons, none_left, one_more, Members, no_member,
  a_member, is_array, is_object, member_of, field,
}
use kabot.Bus.{◌<+>◌}
use kabot.Cron.Schedule.{is_space}

abbrev pub is_boolean_string : String → Bool
is_boolean_string value = str_eq value "true" || str_eq value "false"

abbrev pub is_digit : Char → Bool
is_digit c = leb 48 (code c) && leb (code c) 57

-- The digits up to the end of the text, as a number.
unfoldable pub digits : ℕ → String → Option ℕ
digits n String.[] = some n
digits n (String.◌∷◌ c s) =
    let rest = digits (n * 10 + (code c - 48)) s in if is_digit c then rest else none

-- At least one digit, and a value up to `limit`.
unfoldable pub digits_within : ℕ → String → Bool
unfolding digits
digits_within limit s = not (empty s) && elim (digits 0 s) [ none ↦ false | some n ↦ leb n limit ]

-- std::stoll behind the blanks: a sign and digits of a 64-bit value up to the end.
unfoldable pub signed : String → Bool
unfolding digits_within
signed String.[] = false
signed (String.◌∷◌ c s) =
    if code c == 45
    then digits_within (2 ^ 63) s
    else if code c == 43
    then digits_within (2 ^ 63 - 1) s
    else digits_within (2 ^ 63 - 1) (String.◌∷◌ c s)

unfoldable pub is_integer_string : String → Bool
unfolding signed
is_integer_string String.[] = false
is_integer_string (String.◌∷◌ c s) =
    let rest = is_integer_string s in if is_space c then rest else signed (String.◌∷◌ c s)

abbrev pub is_value : Json → String → Bool
is_value (text s) value = str_eq s value
is_value (boolean true) value = str_eq value "true"
is_value (boolean false) value = str_eq value "false"
is_value j value = false

unfoldable pub any_value : Jsons → String → Bool
any_value none_left value = false
any_value (one_more j js) value = is_value j value || any_value js value

abbrev pub is_enum_valid : Json → String → Bool
is_enum_valid (array js) value = any_value js value
is_enum_valid j value = true

-- The libraries' parts: nlohmann::json::parse and std::stod.
pub record Readers : Type 0 where
  pub parse : String → Option Json
  pub is_number_string : String → Bool

pub record Tool (S : Type 0) : Type 0 where
  pub name : String
  pub description : String
  pub parameters_json : String
  pub execute : Dict String → S → S × Option String

unfoldable pub matches_type : Readers → String → String → Bool
unfolding is_integer_string
matches_type readers type value =
    if str_eq type "string"
    then true
    else if str_eq type "boolean"
    then is_boolean_string value
    else if str_eq type "integer"
    then is_integer_string value
    else if str_eq type "number"
    then readers.is_number_string value
    else if str_eq type "array"
    then elim (readers.parse value) [ none ↦ false | some j ↦ is_array j ]
    else if str_eq type "object"
    then elim (readers.parse value) [ none ↦ false | some j ↦ is_object j ]
    else true

abbrev pub type_name : Json → String
type_name (text s) = s
type_name j = ""

-- The value of a parameter that is there and not empty.
abbrev pub is_given : String → Dict String → Bool
is_given key params = elim (lookup key params) [ none ↦ false | some value ↦ not (empty value) ]

-- The first required parameter that is missing, as an error.
unfoldable pub missing_error : String → List String → Dict String → Option String
missing_error tool [] params = none
missing_error tool (key ∷ keys) params =
    let rest = missing_error tool keys params in
    if is_given key params
    then rest
    else some ("Error: missing required parameter '" <+> key <+> "' for tool '" <+> tool <+> "'")

-- A value against the schema of its property.
unfoldable pub property_error : Readers → String → String → String → Json → Option String
unfolding matches_type
property_error readers tool key value prop = elim (field "type" prop) [
  | none ↦ none
  | some type ↦
      if not (matches_type readers (type_name type) value)
      then some (
          "Error: parameter '"
          <+> key
          <+> "' for tool '"
          <+> tool
          <+> "' expected type '"
          <+> type_name type
          <+> "' but got value '"
          <+> value
          <+> "'")
      else elim (field "enum" prop) [
        | none ↦ none
        | some values ↦
            if is_enum_valid values value
            then none
            else some (
                "Error: parameter '" <+> key <+> "' for tool '" <+> tool
                <+> "' has invalid enum value '" <+> value <+> "'")
      ]
]

unfoldable pub parameter_error : Readers → String → Json → String → String → Option String
unfolding property_error
parameter_error readers tool properties key value =
    if empty value then none else elim (field key properties) [
      | none ↦ none
      | some prop ↦ property_error readers tool key value prop
    ]

unfoldable pub parameters_error : Readers → String → Json → Dict String → Option String
unfolding parameter_error
parameters_error readers tool properties [] = none
parameters_error readers tool properties ((key, value) ∷ params) =
    elim (parameter_error readers tool properties key value) [
      | some error ↦ some error
      | none ↦ parameters_error readers tool properties params
    ]
