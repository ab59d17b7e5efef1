-- ===== src/Streaming/Router/Examples.antt =====
-- Runs of the router of common/streaming/router.go.
use game01_server.Prelude.{ℕ, ◌≡◌, ◌≢◌, ◌⊎◌, refl, Option, none, some, [], ◌∷◌, String}
use game01_server.Prelude.Eq.{nat_eq}
use game01_server.Streaming.Router.{
  event, request, InternalEnvelope, answered, failed, MessageHandler, Router, handler_of, handle,
  send_result,
}
use game01_server.Streaming.Router.Replies.{Replies, handle-Replies, Unanswered, request_answered}

-- It echoes the message id.
abbrev echo : MessageHandler ℕ
echo e = answered (some (record { message_id = e.message_id; message = some e.message_id }))

abbrev broken : MessageHandler ℕ
broken e = failed "broken"

abbrev routes : Router ℕ
routes = (3, (10, broken) ∷ []) ∷ []

abbrev asking : InternalEnvelope
asking = record {
  kind = request;
  request_id = 77;
  source_service = 1;
  target_service = 3;
  message_id = 10;
  payload = "";
  error_code = 0;
  error_message = "";
}

abbrev sends : InternalEnvelope → Option ℕ
sends e = none

abbrev marshals : ℕ → Option String
marshals n = some "payload"

handle-Replies_example :
    let s = (handle sends marshals 1 routes asking).sent in
    ((asking.kind ≡ event) × (s ≡ none)) ⊎ ((asking.kind ≢ event) × Replies asking s)
handle-Replies_example = handle-Replies sends marshals 1 routes asking

request_answered_example :
    let d = handle sends marshals 1 routes asking in
    ((e : InternalEnvelope) × (d.sent ≡ some e) × (d.result ≡ send_result sends (sends e)))
    ⊎ ((d.sent ≡ none) × Unanswered marshals (handler_of routes 3 10) asking d.result)
request_answered_example = request_answered sends marshals 1 routes asking refl
