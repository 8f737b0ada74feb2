-- ===== src/Agents/Tools/Schema.antt =====
-- What a tool's JSON schema asks of a call, apart from src/agent/tools/tool_schema_validator.cpp.
use kabot.Base.{
  Bool, true, false, not, ◌&&◌, ◌||◌, String, none, some, str_eq, all, any, if◌then◌else◌,
}
use kabot.Base.Dict.{Dict, lookup}
use kabot.Base.Json.{
  Json, boolean, text, array, object, Jsons, none_left, one_more, elements, field, is_array,
  is_object,
}
use kabot.Agents.Tools.{Readers, is_integer_string}

-- The parameter is there with a value other than the empty text.
unfoldable pub has_value : Dict String → String → Bool
has_value params key = elim (lookup key params) [
  | none ↦ false
  | some value ↦ not (str_eq value "")
]

unfoldable pub all_required : Jsons → Dict String → Bool
unfolding has_value
all_required none_left params = true
all_required (one_more (text key) js) params = has_value params key && all_required js params
all_required (one_more j js) params = all_required js params

-- Each declared type and the test of a value that it asks for; any other type asks nothing. Integers are
-- the texts that std::stoll reads to their end.
unfoldable pub has_type : Readers → String → String → Bool
unfolding is_integer_string
has_type readers type value =
    (not (str_eq type "boolean") || (str_eq value "true" || str_eq value "false"))
    && (not (str_eq type "integer") || is_integer_string value)
    && (not (str_eq type "number") || readers.is_number_string value)
    && (not (str_eq type "array")
        || elim (readers.parse value) [ none ↦ false | some j ↦ is_array j ])
    && (not (str_eq type "object")
        || elim (readers.parse value) [ none ↦ false | some j ↦ is_object j ])

-- The text, or the name of the truth value.
abbrev pub named_by : String → Json → Bool
named_by value (text s) = str_eq s value
named_by value (boolean b) = str_eq value (if b then "true" else "false")
named_by value j = false

abbrev pub type_text : Json → String
type_text (text s) = s
type_text j = ""

-- The value is empty, or its property is not declared or declares no type, or the value is of the type
-- and, where there is an enumeration, one of its values.
unfoldable pub is_valid_value : Readers → Json → String → String → Bool
unfolding has_type
is_valid_value readers properties key value = str_eq value "" || elim (field key properties) [
  | none ↦ true
  | some prop ↦ elim (field "type" prop) [
    | none ↦ true
    | some type ↦ has_type readers (type_text type) value && elim (field "enum" prop) [
      | some (array js) ↦ any (named_by value) (elements js)
      | _ ↦ true
    ]
  ]
]

-- What the schema asks of the parameters of a call: every required one has a value, and all values are
-- valid.
unfoldable pub is_valid_call : Readers → Json → Dict String → Bool
unfolding all_required is_valid_value
is_valid_call readers schema params =
    (elim (field "required" schema) [ some (array js) ↦ all_required js params | _ ↦ true ])
    && elim (field "properties" schema) [
      | some (object ms) ↦
          all (λ (entry : String × String). is_valid_value readers (object ms) entry.0 entry.1)
            params
      | _ ↦ true
    ]
