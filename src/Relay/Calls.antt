-- ===== src/Relay/Calls.antt =====
-- The calls of a worker and of the manager in src/relay/relay_manager.cpp that talk to the server by HTTP. What
-- nlohmann::json does with text, `parse` and `dump`, is an argument, and so is DoRequest, as `call`; a read of a
-- member with the wrong type throws `type_error`.
pub mod Described
pub mod Claimed
mod Examples
use Prim.Native.String.{len}
use kabot.Base.{
  ℕ, Bool, true, false, not, ◌&&◌, ◌||◌, String, Option, none, some, List, [], ◌∷◌, ltb, empty,
  if◌then◌else◌,
}
use kabot.Base.Int.{ℤ}
use kabot.Base.Dict.{Dict, insert}
use kabot.Base.Json.{
  Json, null, boolean, number, text, array, object, Jsons, Members, a_member, no_member, is_object,
  field, member_of, text_at, array_at, object_at, texts_of,
}
use kabot.Bus.{or_else, ◌<+>◌}
use kabot.Agents.Memory.{trim, ◌>>=◌}
use kabot.Config.Types.{RelayManagedAgentConfig}
use kabot.Relay.Requests.{
  Request, RelayTaskInteraction, RelayTaskProject, RelayTaskStatusUpdate, RelayTaskCreate,
  build_daily_summary_request, build_claim_next_task_request, build_task_status_request,
  build_submit_task_request, build_project_query_request,
}
use kabot.Relay.Dates.{is_valid_summary_date}
use kabot.Relay.Http.{
  Outcome, returned, thrown, Response, RelayResult, refused, is_success, what_or, result_of,
}

pub record RelayTask : Type 0 where
  pub task_id : String
  pub title : String
  pub instruction : String
  pub session_key : String
  pub created_at : String
  pub priority : String
  pub interaction : RelayTaskInteraction
  pub metadata : Dict String
  pub project : RelayTaskProject
  pub depends_on_task_ids : List String
  pub dependency_state : Dict String
  pub blocked_by_task_ids : List String
  pub merge_request : String
  pub waiting_user : Bool

abbrev pub no_interaction : RelayTaskInteraction
no_interaction = record { channel = ""; channel_instance = ""; chat_id = ""; reply_to = "" }

abbrev pub no_project : RelayTaskProject
no_project = record { project_id = ""; name = ""; description = ""; git_url = ""; metadata = [] }

abbrev pub no_task : RelayTask
no_task = record {
  task_id = "";
  title = "";
  instruction = "";
  session_key = "";
  created_at = "";
  priority = "";
  interaction = no_interaction;
  metadata = [];
  project = no_project;
  depends_on_task_ids = [];
  dependency_state = [];
  blocked_by_task_ids = [];
  merge_request = "";
  waiting_user = false;
}

-- json.value(key, std::string()): `none` where the member is there and is no text.
unfoldable pub text_value : String → Json → Option String
unfolding member_of
text_value key j = elim (field key j) [
  | none ↦ some ""
  | some v ↦ elim v [ text s ↦ some s | _ ↦ none ]
]

-- json.value(key, false)
unfoldable pub boolean_value : String → Json → Option Bool
unfolding member_of
boolean_value key j = elim (field key j) [
  | none ↦ some false
  | some v ↦ elim v [ boolean b ↦ some b | _ ↦ none ]
]

unfoldable pub parse_string_array : String → Json → List String
unfolding array_at texts_of
parse_string_array key j = elim (array_at key j) [ none ↦ [] | some js ↦ texts_of js ]

unfoldable pub string_map : (Json → String) → Members → Dict String
string_map dump no_member = []
string_map dump (a_member key (text s) ms) = insert key s (string_map dump ms)
string_map dump (a_member key null ms) = string_map dump ms
string_map dump (a_member key j ms) = insert key (dump j) (string_map dump ms)

unfoldable pub parse_string_map : (Json → String) → String → Json → Dict String
unfolding member_of string_map
parse_string_map dump key j = elim (field key j) [
  | none ↦ []
  | some v ↦ elim v [ object ms ↦ string_map dump ms | _ ↦ [] ]
]

unfoldable pub parse_interaction : Json → Option RelayTaskInteraction
unfolding object_at text_value
parse_interaction j = elim (object_at "interaction" j) [
  | none ↦ some no_interaction
  | some i ↦ do
    channel ← text_value "channel" i
    channel_instance ← text_value "channelInstance" i
    chat_id ← text_value "chatId" i
    reply_to ← text_value "replyTo" i
    some (record {
      channel = channel;
      channel_instance = channel_instance;
      chat_id = chat_id;
      reply_to = reply_to;
    })
]

unfoldable pub parse_project : (Json → String) → Json → Option RelayTaskProject
unfolding object_at text_value parse_string_map
parse_project dump j = elim (object_at "project" j) [
  | none ↦ some no_project
  | some p ↦ do
    project_id ← text_value "projectId" p
    name ← text_value "name" p
    description ← text_value "description" p
    git_url ← text_value "gitUrl" p
    some (record {
      project_id = project_id;
      name = name;
      description = description;
      git_url = git_url;
      metadata = parse_string_map dump "metadata" p;
    })
]

-- `none` where a read throws.
unfoldable pub parse_relay_task : (Json → String) → Json → Option RelayTask
unfolding text_value boolean_value parse_interaction parse_project parse_string_map
    parse_string_array
parse_relay_task dump j = if not (is_object j) then some no_task else do
  task_id ← text_value "taskId" j
  title ← text_value "title" j
  instruction ← text_value "instruction" j
  session_key ← text_value "sessionKey" j
  created_at ← text_value "createdAt" j
  priority ← text_value "priority" j
  waiting_user ← boolean_value "waitingUser" j
  merge_request ← text_value "mergeRequest" j
  interaction ← parse_interaction j
  project ← parse_project dump j
  some (record {
    task_id = task_id;
    title = title;
    instruction = instruction;
    session_key = session_key;
    created_at = created_at;
    priority = priority;
    interaction = interaction;
    metadata = parse_string_map dump "metadata" j;
    project = project;
    depends_on_task_ids = parse_string_array "dependsOnTaskIds" j;
    dependency_state = parse_string_map dump "dependencyState" j;
    blocked_by_task_ids = parse_string_array "blockedByTaskIds" j;
    merge_request = merge_request;
    waiting_user = waiting_user;
  })

pub record RelayTaskClaimResult : Type 0 where
  pub success : Bool
  pub found : Bool
  pub http_status : ℕ
  pub message : String
  pub task : RelayTask

abbrev pub unclaimed : Bool → ℕ → String → RelayTaskClaimResult
unclaimed success http_status message = record {
  success = success;
  found = false;
  http_status = http_status;
  message = message;
  task = no_task;
}

-- The library's parts.
pub record JsonText : Type 0 where
  pub parse : String → Option Json
  pub dump : Json → String
  pub type_error : String

-- What the body of an answer with success says.
unfoldable pub claimed_from : JsonText → ℕ → String → RelayTaskClaimResult
unfolding boolean_value parse_relay_task object_at
claimed_from json http_status body = elim (json.parse body) [
  | none ↦ unclaimed false http_status "invalid claim-next response body"
  | some j ↦
      if not (is_object j)
      then unclaimed false http_status "invalid claim-next response body"
      else elim (boolean_value "found" j) [
        | none ↦ unclaimed false 0 json.type_error
        | some false ↦ unclaimed true http_status ""
        | some true ↦ elim (object_at "task" j) [
          | none ↦ unclaimed false http_status "claim-next response missing task"
          | some t ↦ elim (parse_relay_task json.dump t) [
            | none ↦ unclaimed false 0 json.type_error
            | some task ↦ record {
              success = true;
              found = true;
              http_status = http_status;
              message = "";
              task = task;
            }
          ]
        ]
      ]
]

unfoldable pub claim_result : JsonText → Outcome Response → RelayTaskClaimResult
unfolding claimed_from
claim_result json (thrown what) = unclaimed false 0 (what_or "unknown claim-next error" what)
claim_result json (returned response) =
    if is_success response.status
    then claimed_from json response.status response.body
    else unclaimed false response.status (or_else response.body response.reason)
