-- ===== src/Tasks/Claims/Examples.antt =====
-- Rounds of two agents, for the theorems on claims.
use kabot.Base.{◌≡◌, refl, Bool, true, false, String, Option, none, some, List, [], ◌∷◌, member}
use kabot.Tasks.State.{TaskRuntime, has_pending_task, is_task_claimed}
use kabot.Tasks.Claims.{ClaimResult, is_offer, poll_round, Event, polled, finished, play}
use kabot.Tasks.Claims.Once.{all_distinct, play-once}

abbrev idle : TaskRuntime
idle = record {
  enabled = true;
  daily_summary_records = [];
  waiting_tasks = [];
  active_tasks = [];
  claimed_task_ids = [];
}

abbrev offer : String → ClaimResult
offer id = record { success = true; found = true; task = record { task_id = id; session_key = "" } }

abbrev history : List Event
history =
    polled "main" (offer "t1")
    ∷ polled "coder" (offer "t1")
    ∷ finished "main"
    ∷ polled "main" (offer "t2")
    ∷ []

first_submitted : (poll_round idle "main" (offer "t1")).submitted ≡ some "t1"
unfolding poll_round has_pending_task kabot.Base.Dict.lookup is_offer is_task_claimed
first_submitted = refl

first_is_offer : is_offer (offer "t1") ≡ true
unfolding is_offer
first_is_offer = refl

play-once_example :
    (all_distinct (play history idle).1 ≡ true)
    × ((s : String) → member s (play history idle).1 ≡ true → is_task_claimed idle s ≡ false)
play-once_example = play-once history idle
