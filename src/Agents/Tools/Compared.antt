-- ===== src/Agents/Tools/Compared.antt =====
-- The tests of src/agent/tools/tool_schema_validator.cpp against the description of a schema.
use kabot.Base.{
  Bool, true, false, ◌&&◌, String, Option, none, some, List, [], ◌≡◌, refl, str_eq, all, any, arith,
  eq_iff, Option-cases, Bool-cases, inl, inr,
}
use kabot.Base.Dict.{Dict, lookup}
use kabot.Base.Json.{
  Json, null, boolean, number, text, array, object, Jsons, none_left, one_more, elements, field,
  texts_of, is_array,
}
use kabot.Agents.Tools.Parameters.{is_allowed_value}
use kabot.Agents.Tools.{
  Readers, is_given, matches_type, type_name, is_enum_valid, any_value, is_value, is_integer_string,
}
use kabot.Agents.Tools.Schema.{
  has_value, all_required, has_type, named_by, type_text, is_valid_value,
}

and_true : (b c : Bool) → c ≡ true → b ≡ b && c
and_true b c h = ground (arith, h)

is_given-has_value :
    (key : String) (params : Dict String) → is_given key params ≡ has_value params key
unfolding has_value
is_given-has_value key params = elim (Option-cases (lookup key params)) [
  | inl e ↦ rw (e, has_value, is_given) refl
  | inr (v, e) ↦ rw (e, has_value, is_given) refl
]

all_required-texts :
    (js : Jsons) (params : Dict String)
    → all (λ key. is_given key params) (texts_of js) ≡ all_required js params
unfolding all_required texts_of
all_required-texts none_left params = refl
all_required-texts (one_more (text key) js) params =
    rw (is_given-has_value key params, all_required-texts js params) refl
all_required-texts (one_more null js) params = all_required-texts js params
all_required-texts (one_more (boolean b) js) params = all_required-texts js params
all_required-texts (one_more (number n) js) params = all_required-texts js params
all_required-texts (one_more (array ks) js) params = all_required-texts js params
all_required-texts (one_more (object ms) js) params = all_required-texts js params

at_boolean :
    (readers : Readers) (value : String)
    → matches_type readers "boolean" value ≡ has_type readers "boolean" value
unfolding matches_type has_type
at_boolean readers value = elim (Bool-cases (str_eq value "true")) [
  | inl e ↦ rw (e, matches_type, has_type) refl
  | inr e ↦ elim (Bool-cases (str_eq value "false")) [
    | inl f ↦ rw (e, f, matches_type, has_type) refl
    | inr f ↦ rw (e, f, matches_type, has_type) refl
  ]
]

at_integer :
    (readers : Readers) (value : String)
    → matches_type readers "integer" value ≡ has_type readers "integer" value
unfolding matches_type has_type
at_integer readers value = elim (Bool-cases (is_integer_string value)) [
  | inl e ↦ rw (e, matches_type, has_type) refl
  | inr e ↦ rw (e, matches_type, has_type) refl
]

at_number :
    (readers : Readers) (value : String)
    → matches_type readers "number" value ≡ has_type readers "number" value
unfolding matches_type has_type
at_number readers value = elim (Bool-cases (readers.is_number_string value)) [
  | inl e ↦ rw (e, matches_type, has_type) refl
  | inr e ↦ rw (e, matches_type, has_type) refl
]

at_array :
    (readers : Readers) (value : String)
    → matches_type readers "array" value ≡ has_type readers "array" value
unfolding matches_type has_type
at_array readers value =
    and_true (elim (readers.parse value) [ none ↦ false | some j ↦ is_array j ]) true refl

at_object :
    (readers : Readers) (value : String)
    → matches_type readers "object" value ≡ has_type readers "object" value
unfolding matches_type has_type
at_object readers value = refl

at_other :
    (readers : Readers) (type value : String)
    → str_eq type "boolean" ≡ false
    → str_eq type "integer" ≡ false
    → str_eq type "number" ≡ false
    → str_eq type "array" ≡ false
    → str_eq type "object" ≡ false
    → matches_type readers type value ≡ has_type readers type value
unfolding matches_type has_type
at_other readers type value b i n a o = elim (Bool-cases (str_eq type "string")) [
  | inl e ↦ rw (b, i, n, a, o, e, matches_type, has_type) refl
  | inr e ↦ rw (b, i, n, a, o, e, matches_type, has_type) refl
]

matches_type-has_type :
    (readers : Readers) (type value : String)
    → matches_type readers type value ≡ has_type readers type value
matches_type-has_type readers type value = elim (Bool-cases (str_eq type "boolean")) [
  | inl e ↦ rw ((eq_iff type "boolean").0 e) (at_boolean readers value)
  | inr b ↦ elim (Bool-cases (str_eq type "integer")) [
    | inl e ↦ rw ((eq_iff type "integer").0 e) (at_integer readers value)
    | inr i ↦ elim (Bool-cases (str_eq type "number")) [
      | inl e ↦ rw ((eq_iff type "number").0 e) (at_number readers value)
      | inr n ↦ elim (Bool-cases (str_eq type "array")) [
        | inl e ↦ rw ((eq_iff type "array").0 e) (at_array readers value)
        | inr a ↦ elim (Bool-cases (str_eq type "object")) [
          | inl e ↦ rw ((eq_iff type "object").0 e) (at_object readers value)
          | inr o ↦ at_other readers type value b i n a o
        ]
      ]
    ]
  ]
]

is_value-named_by : (j : Json) (value : String) → is_value j value ≡ named_by value j
is_value-named_by null value = refl
is_value-named_by (text s) value = refl
is_value-named_by (boolean true) value = refl
is_value-named_by (boolean false) value = refl
is_value-named_by (number n) value = refl
is_value-named_by (array js) value = refl
is_value-named_by (object ms) value = refl

any_value-named_by :
    (js : Jsons) (value : String) → any_value js value ≡ any (named_by value) (elements js)
unfolding any_value
any_value-named_by none_left value = refl
any_value-named_by (one_more j js) value =
    rw (is_value-named_by j value, any_value-named_by js value) refl

enum_values :
    (o : Option Json) (value : String)
    → (elim o as (λ x. Bool) [ none ↦ true | some values ↦ is_enum_valid values value ])
      ≡ (elim o as (λ x. Bool) [ some (array js) ↦ any (named_by value) (elements js) | _ ↦ true ])
enum_values none value = refl
enum_values (some (array js)) value = any_value-named_by js value
enum_values (some null) value = refl
enum_values (some (boolean b)) value = refl
enum_values (some (number n)) value = refl
enum_values (some (text s)) value = refl
enum_values (some (object ms)) value = refl

type_name-text : (type : Json) → type_name type ≡ type_text type
type_name-text null = refl
type_name-text (boolean b) = refl
type_name-text (number n) = refl
type_name-text (text s) = refl
type_name-text (array js) = refl
type_name-text (object ms) = refl

pub is_allowed_value-is_valid_value :
    (readers : Readers) (properties : Json) (key value : String)
    → is_allowed_value readers properties key value ≡ is_valid_value readers properties key value
unfolding is_allowed_value is_valid_value
is_allowed_value-is_valid_value readers properties key value =
    elim (Option-cases (field key properties)) [
      | inl f ↦ rw (is_allowed_value, is_valid_value, f) refl
      | inr (prop, f) ↦ elim (Option-cases (field "type" prop)) [
        | inl t ↦ rw (is_allowed_value, is_valid_value, f, t) refl
        | inr (type, t) ↦
            rw (is_allowed_value, is_valid_value, f, t)
              (rw
                (
                  type_name-text type,
                  matches_type-has_type readers (type_text type) value,
                  enum_values (field "enum" prop) value,
                )
                refl)
      ]
    ]

pub required-all_required :
    (o : Option Json) (params : Dict String)
    → all
        (λ key. is_given key params)
        (elim o as (λ x. List String) [ some (array js) ↦ texts_of js | _ ↦ [] ])
      ≡ (elim o as (λ x. Bool) [ some (array js) ↦ all_required js params | _ ↦ true ])
required-all_required none params = refl
required-all_required (some (array js)) params = all_required-texts js params
required-all_required (some null) params = refl
required-all_required (some (boolean b)) params = refl
required-all_required (some (number n)) params = refl
required-all_required (some (text s)) params = refl
required-all_required (some (object ms)) params = refl
