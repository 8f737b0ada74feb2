-- ===== src/Agents/Tools/Examples.antt =====
-- A registry of src/agent/tools/tool_registry.cpp with one tool that has a required parameter and a
-- number, and the files of an edit.
use Prim.Native.String.{len}
use kabot.Bus.{◌<+>◌}
use kabot.Base.{
  ◌⊎◌, find?, ℕ, suc, true, false, String, Option, none, some, List, [], ◌∷◌, ◌≡◌, refl,
  if◌then◌else◌,
}
use kabot.Base.Dict.{Dict, lookup, insert}
use kabot.Base.Json.{Json, text, array, object, one_more, none_left, a_member, no_member}
use kabot.Agents.Tools.{Readers, Tool, is_integer_string}
use kabot.Agents.Tools.Checked.{register, execute, execute-is_valid_call}
use kabot.Agents.Tools.Schema.{is_valid_call}
use kabot.Agents.Tools.Files.{edit_file, edit_file-replaced}

abbrev schema : Json
schema = object (
    a_member "required" (array (one_more (text "path") none_left)) (
      a_member "properties"
        (object (a_member "limit" (object (a_member "type" (text "integer") no_member)) no_member))
        no_member))

abbrev readers : Readers
readers = record { parse = λ json. some schema; is_number_string = λ value. false }

abbrev read_file : Tool ℕ
read_file = record {
  name = "read_file";
  description = "Read a file";
  parameters_json = "{}";
  execute = λ params n. (suc n, some "text");
}

abbrev params : Dict String
params = ("path", "a.txt") ∷ ("limit", "1O") ∷ []

signed_number : is_integer_string " -42" ≡ true
unfolding is_integer_string
signed_number = refl

no_number : is_valid_call readers schema params ≡ false
unfolding is_valid_call kabot.Base.Json.member_of lookup kabot.Agents.Tools.matches_type
no_number = refl

execute-is_valid_call_example :
    (rest : String) × (execute readers (register readers [] read_file) "read_file" params 0 ≡ (
      if is_valid_call readers schema params
      then read_file.execute params 0
      else (0, some ("Error: " <+> rest))))
unfolding lookup register kabot.Base.Dict.emplace
execute-is_valid_call_example =
    execute-is_valid_call readers (register readers [] read_file) "read_file" read_file schema
      params 0 refl refl

abbrev edit : Dict String
edit = ("path", "a.txt") ∷ ("old_string", "b") ∷ ("new_string", "xy") ∷ []

abbrev files : Dict String
files = ("a.txt", "abcb") ∷ ("b.txt", "b") ∷ []

edited_once : edit_file (λ path. true) edit files ≡ (("a.txt", "axycb") ∷ ("b.txt", "b") ∷ [], "OK")
unfolding edit_file kabot.Agents.Tools.Files.replaced lookup insert kabot.Base.Dict.erase
edited_once = refl

edit_file-replaced_example :
    ((find? "abcb" "b" ≡ none)
      × (edit_file (λ path. true) edit files ≡ (files, "Error: old_string not found")))
    ⊎ ((u : String) × (v : String) × ("abcb" ≡ u <+> "b" <+> v)
        × (find? "abcb" "b" ≡ some (len u))
        × (edit_file (λ path. true) edit files ≡ (insert "a.txt" (u <+> "xy" <+> v) files, "OK")))
unfolding lookup
edit_file-replaced_example = edit_file-replaced (λ path. true) edit files "abcb" refl refl refl
