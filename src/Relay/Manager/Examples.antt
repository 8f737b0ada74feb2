-- ===== src/Relay/Manager/Examples.antt =====
-- Two managed agents of src/relay/relay_manager.cpp with the same local agent, and an upload.
use kabot.Base.{ℕ, suc, true, String, none, some, [], ◌∷◌, ◌≡◌, refl, if◌then◌else◌}
use kabot.Agents.Memory.{trim}
use kabot.Config.Types.{RelayManagedAgentConfig}
use kabot.Config.Defaults.{new_managed_agent}
use kabot.Relay.Dates.{is_valid_summary_date}
use kabot.Relay.Http.{returned, refused}
use kabot.Relay.Manager.{World, worker_upload_daily_summary, worker_of, managed_local_agents}
use kabot.Relay.Manager.Sent.{
  can_upload, upload_once, worker_upload_daily_summary_lem, worker_of-last,
}

abbrev world : World ℕ
world = record {
  call = λ config request n.
      (suc n, returned (record { status = 201; reason = "Created"; body = "" }));
  json = record { parse = λ s. none; dump = λ j. ""; type_error = "" };
  now = "2025-01-01T00:00:00Z";
  to_string = λ n. "";
}

abbrev first : RelayManagedAgentConfig
first = record new_managed_agent { name = "one"; local_agent = "main" }

abbrev second : RelayManagedAgentConfig
second = record new_managed_agent { name = "two"; local_agent = "main" }

both_managed : managed_local_agents (first ∷ second ∷ []) ≡ "main" ∷ "main" ∷ []
unfolding managed_local_agents
both_managed = refl

refused_date : (worker_upload_daily_summary world first "2025-02-29" "text" "" 0).0 ≡ 0
unfolding worker_upload_daily_summary
refused_date = refl

last_counts : worker_of (first ∷ second ∷ []) "main" ≡ some second
last_counts = worker_of-last (first ∷ []) [] second refl refl

worker_upload_daily_summary_lem_example :
    (message : String) × (worker_upload_daily_summary world first " 2025-01-01" "text" "" 0 ≡ (
      if can_upload first (trim " 2025-01-01") (trim "text")
      then upload_once world first (trim " 2025-01-01") (trim "text") (trim "") 0
      else (0, refused message)))
worker_upload_daily_summary_lem_example =
    worker_upload_daily_summary_lem world first " 2025-01-01" "text" "" 0

sends_today : can_upload first (trim " 2025-01-01") (trim "text") ≡ true
unfolding kabot.Relay.Dates.codes trim
sends_today = refl
