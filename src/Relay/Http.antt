-- ===== src/Relay/Http.antt =====
-- The HTTP session of src/relay/relay_manager.cpp, plain or with TLS, and the calls that a worker makes with it. The
-- network is an argument that acts on a state `S`, the server's included.
pub mod Retry
mod Examples
use Prim.Native.Char.{Char, code}
use Prim.Native.String.{len}
use kabot.Base.{
  ℕ, ◌+◌, ◌-◌, ◌*◌, ◌%◌, Bool, true, false, not, ◌&&◌, ◌||◌, String, Option, none, some, List, [],
  ◌∷◌, ◌==◌, ltb, leb, empty, if◌then◌else◌,
}
use kabot.Base.Int.{ℤ}
use kabot.Base.Json.{
  Json, null, boolean, number, text, array, object, Jsons, Members, a_member, no_member, is_object,
  field, member_of, array_at, object_at, texts_of,
}
use kabot.Base.Dict.{Dict, insert}
use kabot.Bus.{or_else}
use kabot.Agents.Memory.{trim}
use kabot.Config.Types.{RelayManagedAgentConfig}
use kabot.Relay.Requests.{
  Request, RelayTaskInteraction, RelayTaskProject, RelayTaskStatusUpdate,
  build_daily_summary_request, build_claim_next_task_request, build_task_status_request,
}

-- What a call that may throw gives; a std::exception has a text, anything else has none.
pub data Outcome {ℓ} (A : Type ℓ) : Type ℓ where
  returned : A → Outcome A
  thrown : Option String → Outcome A

pub record Response : Type 0 where
  pub status : ℕ
  pub reason : String
  pub body : String

-- A write and a read on a connection, and how one is opened and closed.
pub record Network (S : Type 0) : Type 0 where
  pub connect : S → S × Outcome Bool
  pub exchange : Request → S → S × Outcome Response
  pub close : S → S

-- The session: the network's state and `connected_`.
pub record HttpSession (S : Type 0) : Type 0 where
  pub network : S
  pub connected : Bool

module _ {S : Type 0} (net : Network S) where
  -- Connect, and then what needs the connection.
  unfoldable pub connect_then :
      (S → HttpSession S × Outcome Response) → S → HttpSession S × Outcome Response
  connect_then go s =
      let (s', opened) = net.connect s in
      elim opened [
        | returned ok ↦ go s'
        | thrown what ↦ (record { network = s'; connected = false }, thrown what)
      ]

  unfoldable pub send_connected : Request → S → HttpSession S × Outcome Response
  send_connected request s =
      let (s', outcome) = net.exchange request s in
      (record { network = s'; connected = true }, outcome)

  -- A std::exception closes the connection, and the request is sent once more on a new one.
  unfoldable pub send_or_again : Request → S → HttpSession S × Outcome Response
  unfolding connect_then send_connected
  send_or_again request s =
      let (s', outcome) = net.exchange request s in
      elim outcome [
        | returned response ↦ (record { network = s'; connected = true }, returned response)
        | thrown none ↦ (record { network = s'; connected = true }, thrown none)
        | thrown (some what) ↦ connect_then (send_connected request) (net.close s')
      ]

  unfoldable pub do_request : Request → HttpSession S → HttpSession S × Outcome Response
  unfolding connect_then send_or_again
  do_request request session =
      if session.connected
      then send_or_again request session.network
      else connect_then (send_or_again request) session.network

-- RelayTaskStatusUpdateResult, and DailySummaryUploadResult, which has the same members.
pub record RelayResult : Type 0 where
  pub success : Bool
  pub http_status : ℕ
  pub message : String

abbrev pub refused : String → RelayResult
refused message = record { success = false; http_status = 0; message = message }

abbrev pub is_success : ℕ → Bool
is_success status = leb 200 status && ltb status 300

-- The text of an error, or a text for what is no std::exception.
abbrev pub what_or : String → Option String → String
what_or unknown none = unknown
what_or unknown (some what) = what

unfoldable pub result_of : String → Outcome Response → RelayResult
result_of unknown (thrown what) = refused (what_or unknown what)
result_of unknown (returned response) = record {
  success = is_success response.status;
  http_status = response.status;
  message = if is_success response.status then "" else or_else response.body response.reason;
}
