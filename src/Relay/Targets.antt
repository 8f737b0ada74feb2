-- ===== src/Relay/Targets.antt =====
-- The targets of the requests of src/relay/relay_manager.cpp. A text is its bytes, each a character.
use Prim.Native.Char.{Char, code}
use kabot.Base.{ℕ, ◌-◌, ◌/◌, ◌%◌, Bool, ◌&&◌, ◌||◌, String, ◌==◌, leb, if◌then◌else◌}
use kabot.Bus.{◌<+>◌}
use kabot.Config.Types.{RelayManagedAgentConfig}

-- std::isalnum in the "C" locale, and the four other characters.
abbrev pub is_unreserved : Char → Bool
is_unreserved c =
    (leb 48 (code c) && leb (code c) 57)
    || (leb 65 (code c) && leb (code c) 90)
    || (leb 97 (code c) && leb (code c) 122)
    || code c == 45
    || code c == 95
    || code c == 46
    || code c == 126

nth_char : ℕ → String → String
nth_char n String.[] = ""
nth_char n (String.◌∷◌ c s) =
    let rest = nth_char (n - 1) s in if n == 0 then String.◌∷◌ c "" else rest

-- A digit of std::hex with std::uppercase.
unfoldable pub hex_digit : ℕ → String
unfolding nth_char
hex_digit n = nth_char n "0123456789ABCDEF"

unfoldable pub url_encode : String → String
unfolding hex_digit
url_encode String.[] = ""
url_encode (String.◌∷◌ c s) =
    (if is_unreserved c
      then String.◌∷◌ c ""
      else "%" <+> hex_digit (code c / 16) <+> hex_digit (code c % 16))
    <+> url_encode s

unfoldable pub build_target : RelayManagedAgentConfig → String
unfolding url_encode
build_target config =
    config.path
    <+> "?agentId="
    <+> url_encode config.agent_id
    <+> "&token="
    <+> url_encode config.token

unfoldable pub build_daily_summary_target : RelayManagedAgentConfig → String
unfolding url_encode
build_daily_summary_target config =
    "/api/agents/" <+> url_encode config.agent_id <+> "/daily-summary"

unfoldable pub build_claim_next_task_target : RelayManagedAgentConfig → String
unfolding url_encode
build_claim_next_task_target config =
    "/api/agents/" <+> url_encode config.agent_id <+> "/tasks/claim-next"

unfoldable pub build_task_status_target : RelayManagedAgentConfig → String → String
unfolding url_encode
build_task_status_target config task_id =
    "/api/agents/" <+> url_encode config.agent_id <+> "/tasks/" <+> url_encode task_id <+> "/status"

unfoldable pub build_project_task_submission_target : String → String
unfolding url_encode
build_project_task_submission_target project_id =
    "/api/projects/" <+> url_encode project_id <+> "/tasks"

unfoldable pub build_project_query_target : String → String
unfolding url_encode
build_project_query_target project_id = "/api/projects/" <+> url_encode project_id
