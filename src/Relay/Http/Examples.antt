-- ===== src/Relay/Http/Examples.antt =====
-- A server of src/relay/relay_manager.cpp that counts the requests and whose first reply is lost.
use kabot.Base.{ℕ, suc, true, none, some, ◌≡◌, refl, ◌==◌, if◌then◌else◌}
use kabot.Relay.Requests.{Request}
use kabot.Relay.Http.{returned, thrown, Response, Network, HttpSession, do_request}
use kabot.Relay.Http.Retry.{Counts, IsSent, do_request-requests, do_request-again}

abbrev ok_response : Response
ok_response = record { status = 200; reason = "OK"; body = "" }

abbrev server : Network ℕ
server = record {
  connect = λ n. (n, returned true);
  exchange =
      λ request n. (suc n, if n == 0 then thrown (some "end of stream") else returned ok_response);
  close = λ n. n;
}

server-Counts : Counts server (λ n. n)
server-Counts = record { connect = λ n. refl; exchange = λ request n. refl; close = λ n. refl }

abbrev request : Request
request = record {
  verb = "POST";
  target = "/api/agents/a/tasks/claim-next";
  host = "relay";
  user_agent = "kabot-relay/1.0";
  authorization = "Bearer t";
  content_type = none;
  body = none;
}

abbrev session : HttpSession ℕ
session = record { network = 0; connected = true }

sent_twice : (do_request server request session).0.network ≡ 2
unfolding do_request
sent_twice = refl

do_request-requests_example :
    IsSent server (λ n. n) server-Counts 2 0 (do_request server request session)
do_request-requests_example = do_request-requests server (λ n. n) server-Counts request session

resent :
    do_request server request session
    ≡ (record { network = 2; connected = true }, returned ok_response)
resent =
    do_request-again server (λ n. n) server-Counts request session "end of stream" true refl refl
      refl
