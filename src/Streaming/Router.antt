-- ===== src/Streaming/Router.antt =====
-- common/streaming/router.go. A handler is given by its answer to an envelope, with a message as an abstract value, and
-- is not nil. The protobuf encoding of a message and the peer's connection are parameters: `marshal` answers the
-- payload, or `none` for an error, and `send` the error of sending an envelope.
pub mod Replies
mod Examples
use game01_server.Prelude.{ℕ, Bool, true, false, not, Option, none, some, List, [], ◌∷◌, String}
use game01_server.Prelude.Tests.{◌==◌, if◌then◌else◌}
use game01_server.Prelude.Eq.{nat_eq}
use game01_server.Prelude.Maps.{Map, get, put}

pub data EnvelopeKind : Type 0 where
  event request response error : EnvelopeKind
  other_kind : ℕ → EnvelopeKind

pub record InternalEnvelope : Type 0 where
  pub kind : EnvelopeKind
  pub request_id : ℕ
  pub source_service : ℕ
  pub target_service : ℕ
  pub message_id : ℕ
  pub payload : String
  pub error_code : ℕ
  pub error_message : String

pub record MessageResult {ℓ} (M : Type ℓ) : Type ℓ where
  pub message_id : ℕ
  pub message : Option M

-- What a handler returns: a result, which may be nil, or the text of its error.
pub data Answer {ℓ} (M : Type ℓ) : Type ℓ where
  answered : Option (MessageResult M) → Answer M
  failed : String → Answer M

pub data RouteError : Type 0 where
  handler_failed : String → RouteError
  marshal_failed : RouteError
  send_failed : ℕ → RouteError

-- What a call of the router does: the envelope that it passes to the connection, and its error.
pub record Routed : Type 0 where
  pub sent : Option InternalEnvelope
  pub result : Option RouteError

abbrev pub silent : Option RouteError → Routed
silent e = record { sent = none; result = e }

abbrev pub MessageHandler {ℓ} : Type ℓ → Type ℓ
MessageHandler M = InternalEnvelope → Answer M

abbrev pub Router {ℓ} : Type ℓ → Type ℓ
Router M = Map ℕ (Map ℕ (MessageHandler M))

module _ {ℓ} {M : Type ℓ} where
  abbrev pub or_nil : Option (Map ℕ (MessageHandler M)) → Map ℕ (MessageHandler M)
  or_nil none = []
  or_nil (some handlers) = handlers

  unfoldable pub register : Router M → ℕ → ℕ → MessageHandler M → Router M
  register r service message_id handler =
      put r service (put (or_nil (get r service)) message_id handler)

  -- `r.handlers[service][messageID]`
  unfoldable pub handler_of : Router M → ℕ → ℕ → Option (MessageHandler M)
  handler_of r service message_id = get (or_nil (get r service)) message_id

module _ (send : InternalEnvelope → Option ℕ) where
  abbrev pub send_result : Option ℕ → Option RouteError
  send_result none = none
  send_result (some e) = some (send_failed e)

  unfoldable pub send_envelope : InternalEnvelope → Routed
  send_envelope e = record { sent = some e; result = send_result (send e) }

  unfoldable pub send_error : ℕ → ℕ → String → Routed
  unfolding send_envelope
  send_error request_id code message = send_envelope (record {
    kind = error;
    request_id = request_id;
    source_service = 0;
    target_service = 0;
    message_id = 0;
    payload = "";
    error_code = code;
    error_message = message;
  })

  module _ {ℓ} {M : Type ℓ} (marshal : M → Option String) (peer_service : ℕ) where
    -- The tail of `dispatch` for a result with a message.
    unfoldable pub respond : InternalEnvelope → ℕ → Option String → Routed
    unfolding send_envelope
    respond envelope message_id none = silent (some marshal_failed)
    respond envelope message_id (some payload) = send_envelope (record {
      kind = response;
      request_id = envelope.request_id;
      source_service = envelope.target_service;
      target_service = peer_service;
      message_id = message_id;
      payload = payload;
      error_code = 0;
      error_message = "";
    })

    -- `dispatch` once the handler has answered.
    unfoldable pub settle : InternalEnvelope → Bool → Answer M → Routed
    unfolding respond send_error
    settle envelope reply (failed message) =
        if reply
        then send_error envelope.request_id 3 message
        else silent (some (handler_failed message))
    settle envelope reply (answered none) = silent none
    settle envelope reply (answered (some result)) = elim result.message [
      | none ↦ silent none
      | some m ↦ if not reply then silent none else respond envelope result.message_id (marshal m)
    ]

    -- `dispatch` once the handler is looked up.
    unfoldable pub dispatch_to : Option (MessageHandler M) → InternalEnvelope → Bool → Routed
    unfolding settle send_error
    dispatch_to none envelope reply =
        if reply
        then send_error envelope.request_id 2 "target service or message handler is unavailable"
        else silent none
    dispatch_to (some handler) envelope reply = settle envelope reply (handler envelope)

    unfoldable pub dispatch : Router M → InternalEnvelope → Bool → Routed
    unfolding dispatch_to
    dispatch r envelope reply =
        dispatch_to (handler_of r envelope.target_service envelope.message_id) envelope reply

    -- `Handle`, by the kind of the envelope.
    unfoldable pub handle_kind : EnvelopeKind → Router M → InternalEnvelope → Routed
    unfolding dispatch send_error
    handle_kind event r envelope = dispatch r envelope false
    handle_kind request r envelope = dispatch r envelope true
    handle_kind _ r envelope = send_error envelope.request_id 1 "unsupported envelope kind"

    unfoldable pub handle : Router M → InternalEnvelope → Routed
    unfolding handle_kind
    handle r envelope = handle_kind envelope.kind r envelope
