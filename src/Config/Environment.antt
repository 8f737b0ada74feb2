-- ===== src/Config/Environment.antt =====
-- The environment variables that src/config/config_loader.cpp reads: getenv, with an empty text for a
-- variable that is not set, overrides the file. The parts are in the child modules.
pub mod Channels
pub mod Providers
pub mod Parts
use Prim.Native.Char.{code}
use Prim.Native.String
use kabot.Base.{
  ℕ, Bool, true, false, not, ◌||◌, String, Option, none, some, List, [], ◌∷◌, ◌==◌, str_eq, empty,
  if◌then◌else◌,
}
use kabot.Base.Int.{ℤ}
use kabot.Tasks.Questions.{to_lower}
use kabot.Config.Reading.{Numbers, or_old}

abbrev pub Env : Type 0
Env = String → String

unfoldable pub get_env_fallback : Env → String → String → String
get_env_fallback env primary secondary = if empty (env primary) then env secondary else env primary

unfoldable pub parse_bool : String → Bool
unfolding to_lower
parse_bool value =
    let lowered = to_lower value in
    str_eq lowered "1" || str_eq lowered "true" || str_eq lowered "yes" || str_eq lowered "on"

unfoldable pub parse_int : Numbers → String → ℤ → ℤ
parse_int numbers value fallback = or_old (numbers.stoi value) fallback

unfoldable pub parse_double : Numbers → String → ℕ → ℕ
parse_double numbers value fallback = or_old (numbers.stod value) fallback

-- The text up to the first comma, and the items behind it that are not empty.
abbrev pub onto_items : String → List String → List String
onto_items item items = if empty item then items else item ∷ items

unfoldable pub split_comma : String → String × List String
split_comma String.[] = ("", [])
split_comma (String.◌∷◌ c s) =
    let (item, items) = split_comma s in
    if code c == 44 then ("", onto_items item items) else (String.◌∷◌ c item, items)

unfoldable pub split_csv : String → List String
unfolding split_comma
split_csv value = let (item, items) = split_comma value in onto_items item items

abbrev pub given : String → Bool
given value = not (empty value)

unfoldable pub text_env : String → String → String
text_env value old = if empty value then old else value

unfoldable pub bool_env : String → Bool → Bool
unfolding parse_bool
bool_env value old = if empty value then old else parse_bool value

unfoldable pub int_env : Numbers → String → ℤ → ℤ
unfolding parse_int
int_env numbers value old = if empty value then old else parse_int numbers value old

unfoldable pub double_env : Numbers → String → ℕ → ℕ
unfolding parse_double
double_env numbers value old = if empty value then old else parse_double numbers value old

unfoldable pub csv_env : String → List String → List String
unfolding split_csv
csv_env value old = if empty value then old else split_csv value
