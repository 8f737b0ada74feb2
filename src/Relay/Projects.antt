-- ===== src/Relay/Projects.antt =====
-- What src/relay/relay_manager.cpp makes of the answers about projects and submitted tasks.
use kabot.Base.{ℕ, Bool, true, false, not, String, none, some, [], if◌then◌else◌}
use kabot.Base.Dict.{Dict, insert}
use kabot.Base.Json.{
  Json, is_object, text_at, object_at, object, text, Members, a_member, no_member, member_of,
}
use kabot.Bus.{or_else}
use kabot.Relay.Http.{Outcome, returned, thrown, Response, is_success, what_or}
use kabot.Relay.Calls.{JsonText}

pub record RelayProjectInfo : Type 0 where
  pub project_id : String
  pub name : String
  pub description : String
  pub metadata : Dict String

pub record RelayProjectQueryResult : Type 0 where
  pub success : Bool
  pub http_status : ℕ
  pub message : String
  pub info : RelayProjectInfo

pub record RelayTaskSubmissionResult : Type 0 where
  pub success : Bool
  pub http_status : ℕ
  pub message : String
  pub task_id : String

-- The texts of an object by their keys; other values are left out.
unfoldable pub only_texts : Members → Dict String
only_texts no_member = []
only_texts (a_member key (text s) ms) = insert key s (only_texts ms)
only_texts (a_member key j ms) = only_texts ms

abbrev pub no_info : RelayProjectInfo
no_info = record { project_id = ""; name = ""; description = ""; metadata = [] }

abbrev pub no_project_info : ℕ → String → RelayProjectQueryResult
no_project_info http_status message = record {
  success = false;
  http_status = http_status;
  message = message;
  info = no_info;
}

abbrev pub text_at_or : String → Json → String → String
text_at_or key j other = elim (text_at key j) [ none ↦ other | some s ↦ s ]

unfoldable pub project_info : String → Json → RelayProjectInfo
unfolding text_at member_of only_texts
project_info project_id j = record {
  project_id = text_at_or "projectId" j project_id;
  name = text_at_or "name" j "";
  description = text_at_or "description" j "";
  metadata = elim (object_at "metadata" j) [
    | none ↦ []
    | some m ↦ elim m [ object ms ↦ only_texts ms | _ ↦ [] ]
  ];
}

unfoldable pub query_result : JsonText → String → Outcome Response → RelayProjectQueryResult
unfolding project_info
query_result json project_id (thrown what) =
    no_project_info 0 (what_or "unknown project query error" what)
query_result json project_id (returned response) =
    if not (is_success response.status)
    then no_project_info response.status (or_else response.body response.reason)
    else elim (json.parse response.body) [
      | none ↦ no_project_info response.status "invalid JSON response"
      | some j ↦
          if not (is_object j)
          then no_project_info response.status "invalid JSON response"
          else record {
            success = true;
            http_status = response.status;
            message = "";
            info = project_info project_id j;
          }
    ]

abbrev pub submission_refused : String → RelayTaskSubmissionResult
submission_refused message = record {
  success = false;
  http_status = 0;
  message = message;
  task_id = "";
}

unfoldable pub submission_result : JsonText → Outcome Response → RelayTaskSubmissionResult
unfolding text_at
submission_result json (thrown what) =
    submission_refused (what_or "unknown task submission error" what)
submission_result json (returned response) = record {
  success = is_success response.status;
  http_status = response.status;
  message = if is_success response.status then "" else or_else response.body response.reason;
  task_id =
      if is_success response.status
      then elim (json.parse response.body) [ none ↦ "" | some j ↦ text_at_or "taskId" j "" ]
      else "";
}
