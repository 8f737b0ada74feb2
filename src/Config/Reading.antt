-- ===== src/Config/Reading.antt =====
-- How src/config/config_loader.cpp reads a member of a JSON object: a member that is missing or of
-- another type leaves the setting as it is. What a number's text stands for comes from outside.
pub mod Parts
pub mod Channels
pub mod File
use kabot.Base.{
  ℕ, Bool, true, false, not, ◌&&◌, ◌||◌, String, Option, none, some, List, [], ◌∷◌, if◌then◌else◌,
  str_eq,
}
use kabot.Base.Int.{ℤ}
use kabot.Base.Json.{
  Json, null, boolean, number, text, array, object, Jsons, none_left, one_more, field, member_of,
  text_at, boolean_at, array_at, elements, texts_of, is_object,
}

-- The libraries' parts: nlohmann::json numbers (an integer as `int`, and any number as `double`),
-- std::stoi, std::stod, and == on doubles.
pub record Numbers : Type 0 where
  pub json_int : String → Option ℤ
  pub json_double : String → ℕ
  pub stoi : String → Option ℤ
  pub stod : String → Option ℕ
  pub same_double : ℕ → ℕ → Bool

abbrev pub or_old {ℓ} : {A : Type ℓ} → Option A → A → A
or_old none old = old
or_old (some new) old = new

abbrev pub contains : String → Json → Bool
contains key source = elim (field key source) [ none ↦ false | some v ↦ true ]

unfoldable pub text_or : String → Json → String → String
unfolding text_at
text_or key source old = or_old (text_at key source) old

unfoldable pub boolean_or : String → Json → Bool → Bool
unfolding boolean_at
boolean_or key source old = or_old (boolean_at key source) old

unfoldable pub integer_at : Numbers → String → Json → Option ℤ
unfolding member_of
integer_at numbers key source = elim (field key source) [
  | some v ↦ elim v [ number s ↦ numbers.json_int s | _ ↦ none ]
  | none ↦ none
]

unfoldable pub integer_or : Numbers → String → Json → ℤ → ℤ
unfolding integer_at
integer_or numbers key source old = or_old (integer_at numbers key source) old

unfoldable pub double_or : Numbers → String → Json → ℕ → ℕ
unfolding member_of
double_or numbers key source old = elim (field key source) [
  | some v ↦ elim v [ number s ↦ numbers.json_double s | _ ↦ old ]
  | none ↦ old
]

-- The texts of an array replace the list.
unfoldable pub texts_or : String → Json → List String → List String
unfolding array_at texts_of
texts_or key source old = elim (array_at key source) [ none ↦ old | some js ↦ texts_of js ]

-- The elements that are objects.
unfoldable pub objects_of : Jsons → List Json
objects_of none_left = []
objects_of (one_more j js) = let rest = objects_of js in if is_object j then j ∷ rest else rest

-- A part of the settings that is read if it is there, whatever it is.
abbrev pub part_or {ℓ} : {A : Type ℓ} → (A → Json → A) → String → Json → A → A
part_or read key source old = elim (field key source) [ none ↦ old | some v ↦ read old v ]
