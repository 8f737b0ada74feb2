-- ===== src/Base/Json.antt =====
-- Values of JSON as nlohmann::json holds them, and the reads that the components share. A number is its
-- text; an object is the list of its members, of which the first with a key counts.
use Prim.Native.String.{String}
use mathlib.Core.Bool.{Bool, true, false}
use mathlib.Core.Option.{Option, none, some}
use mathlib.Core.List.{List, [], ◌∷◌}
use package.text.Mathlib.Text.{◌==◌ as str_eq}
use kabot.Base.Tests.{if◌then◌else◌}

mutual
  pub data Json : Type 0 where
    null : Json
    boolean : Bool → Json
    number : String → Json
    text : String → Json
    array : Jsons → Json
    object : Members → Json

  pub data Jsons : Type 0 where
    none_left : Jsons
    one_more : Json → Jsons → Jsons

  pub data Members : Type 0 where
    no_member : Members
    a_member : String → Json → Members → Members

abbrev pub is_array : Json → Bool
is_array (array js) = true
is_array j = false

abbrev pub is_object : Json → Bool
is_object (object ms) = true
is_object j = false

-- The value of a key in an object; nothing elsewhere.
unfoldable pub member_of : String → Members → Option Json
member_of key no_member = none
member_of key (a_member k j ms) =
    let rest = member_of key ms in if str_eq k key then some j else rest

abbrev pub field : String → Json → Option Json
field key (object ms) = member_of key ms
field key j = none

-- The texts of an array; other values are skipped.
unfoldable pub texts_of : Jsons → List String
texts_of none_left = []
texts_of (one_more (text s) js) = s ∷ texts_of js
texts_of (one_more j js) = texts_of js

-- What a key holds, if it is a text, or a truth value.
unfoldable pub text_at : String → Json → Option String
unfolding member_of
text_at key j = elim (field key j) [ some v ↦ elim v [ text s ↦ some s | _ ↦ none ] | none ↦ none ]

unfoldable pub boolean_at : String → Json → Option Bool
unfolding member_of
boolean_at key j = elim (field key j) [
  | some v ↦ elim v [ boolean b ↦ some b | _ ↦ none ]
  | none ↦ none
]

-- The elements under a key that holds an array.
abbrev pub elements : Jsons → List Json
elements none_left = []
elements (one_more j js) = j ∷ elements js

unfoldable pub array_at : String → Json → Option Jsons
unfolding member_of
array_at key j = elim (field key j) [
  | some v ↦ elim v [ array js ↦ some js | _ ↦ none ]
  | none ↦ none
]

-- What a key holds, if it is an object.
unfoldable pub object_at : String → Json → Option Json
unfolding member_of
object_at key j = elim (field key j) [
  | some v ↦ elim v [ object ms ↦ some (object ms) | _ ↦ none ]
  | none ↦ none
]

abbrev pub members_of : List (String × Json) → Members
members_of [] = no_member
members_of ((key, j) ∷ ms) = a_member key j (members_of ms)

abbrev pub object_of : List (String × Json) → Json
object_of ms = object (members_of ms)

-- The array of some texts, and the object of some texts by their keys.
abbrev pub array_of : List String → Jsons
array_of [] = none_left
array_of (s ∷ ss) = one_more (text s) (array_of ss)

abbrev pub texts_by_key : List (String × String) → Members
texts_by_key [] = no_member
texts_by_key ((key, s) ∷ ms) = a_member key (text s) (texts_by_key ms)
