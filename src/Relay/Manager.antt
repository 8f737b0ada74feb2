-- ===== src/Relay/Manager.antt =====
-- The workers and the manager of src/relay/relay_manager.cpp: which worker serves a local agent, and the calls on it. A
-- worker is its settings with a DoRequest of its own; the time and std::to_string are arguments.
pub mod Sent
mod Examples
use Prim.Native.String.{len}
use kabot.Base.{
  ℕ, Bool, true, false, not, ◌&&◌, ◌||◌, String, Option, none, some, List, [], ◌∷◌, map, keep, ltb,
  empty, is_some, if◌then◌else◌,
}
use kabot.Base.Int.{ℤ}
use kabot.Base.Dict.{Dict, insert, lookup}
use kabot.Base.Json.{
  Json, is_object, text_at, object_at, object, text, Members, a_member, no_member, member_of,
}
use kabot.Bus.{or_else, ◌<+>◌}
use kabot.Agents.Memory.{trim}
use kabot.Config.Types.{RelayManagedAgentConfig}
use kabot.Relay.Requests.{
  Request, RelayTaskStatusUpdate, RelayTaskCreate, build_daily_summary_request,
  build_claim_next_task_request, build_task_status_request, build_submit_task_request,
  build_project_query_request,
}
use kabot.Relay.Dates.{is_valid_summary_date}
use kabot.Relay.Http.{
  Outcome, returned, thrown, Response, RelayResult, refused, is_success, what_or, result_of,
}
use kabot.Relay.Calls.{JsonText, RelayTaskClaimResult, unclaimed, claim_result}
use kabot.Relay.Projects.{
  RelayProjectQueryResult, no_project_info, query_result, RelayTaskSubmissionResult,
  submission_refused, submission_result,
}

-- What a worker is given: DoRequest on the state, IsoNow and std::to_string.
pub record World (S : Type 0) : Type 0 where
  pub call : RelayManagedAgentConfig → Request → S → S × Outcome Response
  pub json : JsonText
  pub now : String
  pub to_string : ℤ → String

module _ {S : Type 0} (world : World S) where
  unfoldable pub worker_upload_daily_summary :
      RelayManagedAgentConfig → String → String → String → S → S × RelayResult
  unfolding is_valid_summary_date trim build_daily_summary_request result_of
  worker_upload_daily_summary config summary_date content reported_at s =
      if not config.enabled
      then (s, refused "relay managed agent is disabled")
      else if empty (trim summary_date) || not (is_valid_summary_date (trim summary_date))
      then (s, refused "summaryDate must be in YYYY-MM-DD format")
      else if empty (trim content)
      then (s, refused "content is required")
      else if ltb 4000 (len (trim content))
      then (s, refused "content must be at most 4000 characters")
      else let (s', outcome) =
          world.call config
            (build_daily_summary_request config (trim summary_date) (trim content)
              (or_else (trim reported_at) world.now))
            s in
        (s', result_of "unknown daily summary upload error" outcome)

  unfoldable pub worker_claim_next_task :
      RelayManagedAgentConfig → Bool → S → S × RelayTaskClaimResult
  unfolding build_claim_next_task_request claim_result
  worker_claim_next_task config supports_interaction s =
      if not config.enabled
      then (s, unclaimed false 0 "relay managed agent is disabled")
      else let (s', outcome) =
          world.call config (build_claim_next_task_request config supports_interaction world.now)
            s in
        (s', claim_result world.json outcome)

  unfoldable pub worker_update_task_status :
      RelayManagedAgentConfig → String → RelayTaskStatusUpdate → S → S × RelayResult
  unfolding trim build_task_status_request result_of
  worker_update_task_status config task_id update s =
      if not config.enabled
      then (s, refused "relay managed agent is disabled")
      else if empty (trim task_id)
      then (s, refused "task_id is required")
      else if empty update.status
      then (s, refused "status is required")
      else let (s', outcome) =
          world.call config
            (build_task_status_request world.to_string config (trim task_id) update world.now) s in
        (s', result_of "unknown task status update error" outcome)

-- workers_by_local_agent_, as the constructor fills it: of workers with the same local agent the last counts.
unfoldable pub bind_workers :
    List RelayManagedAgentConfig → Dict RelayManagedAgentConfig → Dict RelayManagedAgentConfig
unfolding insert
bind_workers [] bound = bound
bind_workers (config ∷ configs) bound =
    bind_workers configs
      (if empty config.local_agent then bound else insert config.local_agent config bound)

abbrev pub local_agent_of : RelayManagedAgentConfig → String
local_agent_of config = config.local_agent

unfoldable pub managed_local_agents : List RelayManagedAgentConfig → List String
managed_local_agents agents =
    map local_agent_of
      (keep (λ (a : RelayManagedAgentConfig). a.enabled && not (empty a.local_agent)) agents)

unfoldable pub auto_claim_local_agents : List RelayManagedAgentConfig → List String
auto_claim_local_agents agents = map local_agent_of (
    keep
      (λ (a : RelayManagedAgentConfig).
        a.enabled && not (empty a.local_agent) && a.auto_claim_tasks)
      agents)

unfoldable pub worker_of : List RelayManagedAgentConfig → String → Option RelayManagedAgentConfig
unfolding bind_workers lookup
worker_of agents local_agent = lookup local_agent (bind_workers agents [])

unfoldable pub has_managed_local_agent : List RelayManagedAgentConfig → String → Bool
unfolding worker_of
has_managed_local_agent agents local_agent = is_some (worker_of agents local_agent)

abbrev pub unbound : String → String
unbound local_agent = "no relay managed agent bound to local agent: " <+> local_agent

module _ {S : Type 0} (world : World S) (agents : List RelayManagedAgentConfig) where
  unfoldable pub claim_next_task : String → Bool → S → S × RelayTaskClaimResult
  unfolding worker_of worker_claim_next_task
  claim_next_task local_agent supports_interaction s = elim (worker_of agents local_agent) [
    | none ↦ (s, unclaimed false 0 (unbound local_agent))
    | some config ↦ worker_claim_next_task world config supports_interaction s
  ]

  unfoldable pub update_task_status : String → String → RelayTaskStatusUpdate → S → S × RelayResult
  unfolding worker_of worker_update_task_status
  update_task_status local_agent task_id update s = elim (worker_of agents local_agent) [
    | none ↦ (s, refused (unbound local_agent))
    | some config ↦ worker_update_task_status world config task_id update s
  ]

  unfoldable pub upload_daily_summary : String → String → String → String → S → S × RelayResult
  unfolding worker_of worker_upload_daily_summary
  upload_daily_summary local_agent summary_date content reported_at s =
      elim (worker_of agents local_agent) [
        | none ↦ (s, refused (unbound local_agent))
        | some config ↦ worker_upload_daily_summary world config summary_date content reported_at s
      ]

  unfoldable pub submit_project_task : String → RelayTaskCreate → S → S × RelayTaskSubmissionResult
  unfolding build_submit_task_request submission_result
  submit_project_task project_id task s = elim agents [
    | [] ↦ (s, submission_refused "no relay workers available")
    | config ∷ _ ↦
        if empty project_id
        then (s, submission_refused "project_id is required for task submission")
        else let (s', outcome) =
            world.call config (build_submit_task_request config project_id task) s in
          (s', submission_result world.json outcome)
  ]

  unfoldable pub query_project : String → S → S × RelayProjectQueryResult
  unfolding build_project_query_request query_result
  query_project project_id s = elim agents [
    | [] ↦ (s, no_project_info 0 "no relay workers available")
    | config ∷ _ ↦
        if empty project_id
        then (s, no_project_info 0 "project_id is required for project query")
        else let (s', outcome) =
            world.call config (build_project_query_request config project_id) s in
          (s', query_result world.json project_id outcome)
  ]
