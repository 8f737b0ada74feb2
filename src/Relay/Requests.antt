-- ===== src/Relay/Requests.antt =====
-- The requests that src/relay/relay_manager.cpp makes: their headers and their JSON bodies. The current time
-- is an argument, and so is std::to_string.
use kabot.Base.{Bool, String, Option, none, some, List, [], ◌∷◌, ◌++◌, empty, if◌then◌else◌}
use kabot.Base.Int.{ℤ, pos, leb_ℤ}
use kabot.Base.Dict.{Dict}
use kabot.Base.Json.{
  Json, null, boolean, number, text, array, object, object_of, array_of, texts_by_key,
}
use kabot.Bus.{◌<+>◌, or_else}
use kabot.Config.Types.{RelayManagedAgentConfig}
use kabot.Relay.Targets.{
  build_daily_summary_target, build_claim_next_task_target, build_task_status_target,
  build_project_task_submission_target, build_project_query_target,
}

-- A request; the body is what `dump` turns into text.
pub record Request : Type 0 where
  pub verb : String
  pub target : String
  pub host : String
  pub user_agent : String
  pub authorization : String
  pub content_type : Option String
  pub body : Option Json

abbrev pub request_for : RelayManagedAgentConfig → String → String → Option Json → Request
request_for config verb target body = record {
  verb = verb;
  target = target;
  host = config.host;
  user_agent = "kabot-relay/1.0";
  authorization = "Bearer " <+> config.token;
  content_type = elim body [ none ↦ none | some j ↦ some "application/json" ];
  body = body;
}

pub record RelayTaskInteraction : Type 0 where
  pub channel : String
  pub channel_instance : String
  pub chat_id : String
  pub reply_to : String

pub record RelayTaskProject : Type 0 where
  pub project_id : String
  pub name : String
  pub description : String
  pub git_url : String
  pub metadata : Dict String

pub record RelayTaskMergeRequest : Type 0 where
  pub url : String
  pub created_at : String
  pub merged_at : String

pub record RelayTaskStatusUpdate : Type 0 where
  pub status : String
  pub message : String
  pub progress : ℤ
  pub reported_at : String
  pub session_key : String
  pub result : String
  pub error : String
  pub waiting_user : RelayTaskInteraction
  pub merge_request : Option RelayTaskMergeRequest

pub record RelayTaskCreate : Type 0 where
  pub title : String
  pub instruction : String
  pub priority : String
  pub project : RelayTaskProject
  pub interaction : RelayTaskInteraction
  pub depends_on : List String
  pub metadata : Dict String
  pub merge_request : String

-- A member that is left out where its text is empty.
abbrev pub unless_empty : String → String → List (String × Json)
unless_empty key value = if empty value then [] else (key, text value) ∷ []

abbrev pub interaction_json : RelayTaskInteraction → Json
interaction_json i = object_of (
    ("channel", text i.channel)
    ∷ ("channelInstance", text i.channel_instance)
    ∷ ("chatId", text i.chat_id)
    ∷ ("replyTo", text i.reply_to)
    ∷ [])

abbrev pub texts_unless_empty : String → List String → List (String × Json)
texts_unless_empty key [] = []
texts_unless_empty key (s ∷ ss) = (key, array (array_of (s ∷ ss))) ∷ []

abbrev pub map_unless_empty : String → Dict String → List (String × Json)
map_unless_empty key [] = []
map_unless_empty key (m ∷ ms) = (key, object (texts_by_key (m ∷ ms))) ∷ []

unfoldable pub build_project_query_request : RelayManagedAgentConfig → String → Request
unfolding build_project_query_target
build_project_query_request config project_id =
    request_for config "GET" (build_project_query_target project_id) none

unfoldable pub build_submit_task_request :
    RelayManagedAgentConfig → String → RelayTaskCreate → Request
unfolding build_project_task_submission_target
build_submit_task_request config project_id task =
    request_for config "POST" (build_project_task_submission_target project_id) (
      some (
        object_of (
          ("title", text task.title) ∷ ("instruction", text task.instruction) ∷ []
          ++ unless_empty "priority" task.priority
          ++ unless_empty "projectId" task.project.project_id
          ++ unless_empty "mergeRequest" task.merge_request
          ++ (if empty task.interaction.channel
              then []
              else ("interaction", interaction_json task.interaction) ∷ [])
          ++ texts_unless_empty "dependsOn" task.depends_on
          ++ map_unless_empty "metadata" task.metadata)))

unfoldable pub build_daily_summary_request :
    RelayManagedAgentConfig → String → String → String → Request
unfolding build_daily_summary_target
build_daily_summary_request config summary_date content reported_at =
    request_for config "POST" (build_daily_summary_target config) (
      some (
        object_of (
          ("summaryDate", text summary_date)
          ∷ ("content", text content)
          ∷ unless_empty "reportedAt" reported_at)))

unfoldable pub build_claim_next_task_request : RelayManagedAgentConfig → Bool → String → Request
unfolding build_claim_next_task_target
build_claim_next_task_request config supports_interaction now =
    request_for config "POST" (build_claim_next_task_target config) (
      some (
        object_of (
          ("localAgent", text config.local_agent)
          ∷ ("claimedAt", text now)
          ∷ ("workerId", text ("gateway:" <+> config.local_agent))
          ∷ ("supportsInteraction", boolean supports_interaction)
          ∷ [])))

abbrev pub merge_request_json : RelayTaskMergeRequest → Json
merge_request_json m = object_of (
    ("url", text m.url)
    ∷ ("createdAt", text m.created_at)
    ∷ ("mergedAt", if empty m.merged_at then null else text m.merged_at)
    ∷ [])

abbrev pub merge_request_member : Option RelayTaskMergeRequest → List (String × Json)
merge_request_member none = []
merge_request_member (some m) = ("mergeRequest", merge_request_json m) ∷ []

unfoldable pub build_task_status_request :
    (ℤ → String) → RelayManagedAgentConfig → String → RelayTaskStatusUpdate → String → Request
unfolding build_task_status_target
build_task_status_request to_string config task_id update now =
    request_for config "POST" (build_task_status_target config task_id) (
      some (
        object_of (
          ("status", text update.status)
            ∷ ("reportedAt", text (or_else update.reported_at now))
            ∷ []
          ++ unless_empty "message" update.message
          ++ (if leb_ℤ (pos 0) update.progress
              then ("progress", number (to_string update.progress)) ∷ []
              else [])
          ++ unless_empty "sessionKey" update.session_key
          ++ unless_empty "result" update.result
          ++ unless_empty "error" update.error
          ++ (if empty update.waiting_user.chat_id
              then []
              else ("waitingUser", interaction_json update.waiting_user) ∷ [])
          ++ merge_request_member update.merge_request)))
