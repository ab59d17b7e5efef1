-- ===== src/Streaming/Router/Replies.antt =====
-- What the router of common/streaming/router.go sends, and to which handler it passes an envelope.
use game01_server.Prelude.{
  ℕ, ◌≡◌, ◌≢◌, ◌⊎◌, refl, sym, subst, inl, inr, Bool, true, false, ◌&&◌, Option, none, some, String,
  arith,
}
use game01_server.Prelude.Tests.{◌==◌, if◌then◌else◌, Bool-cases, Option-cases}
use game01_server.Prelude.Eq.{nat_eq}
use game01_server.Prelude.Maps.{get, put, get-put}
use game01_server.Streaming.Router.{
  EnvelopeKind, event, request, response, error, InternalEnvelope, Answer, answered, failed,
  MessageHandler, Router, RouteError, marshal_failed, MessageResult, send_result, other_kind,
  register, handler_of, or_nil, dispatch, dispatch_to, settle, respond, send_error, send_envelope,
  handle, handle_kind,
}

-- A registered handler gets the envelopes of its service and message, in place of one that was registered before, and all
-- other envelopes go where they went.
pub handler_of-register {ℓ} :
    {M : Type ℓ} (r : Router M) (service message_id : ℕ) (handler : MessageHandler M) (s i : ℕ)
    → handler_of (register r service message_id handler) s i
      ≡ (if service == s && message_id == i then some handler else handler_of r s i)
unfolding handler_of register
handler_of-register r service message_id handler s i =
    rw (get-put r service (put (or_nil (get r service)) message_id handler) s)
      (elim (Bool-cases (service == s)) [
        | inr other ↦ rw other refl
        | inl same ↦
            let e : service ≡ s = ground arith in
            rw (same, e, get-put (or_nil (get r s)) message_id handler i) refl
      ])

-- An envelope that is sent for `envelope`, or none.
abbrev pub Replies : InternalEnvelope → Option InternalEnvelope → Type 0
Replies envelope none = Unit
Replies envelope (some e) =
    (e.request_id ≡ envelope.request_id) × ((e.kind ≡ response) ⊎ (e.kind ≡ error))

module _ {ℓ} {M : Type ℓ} (marshal : M → Option String) where
  -- Why a request may get no reply: its handler has none to give, or the message cannot be encoded.
  abbrev pub Unanswered : Option (MessageHandler M) → InternalEnvelope → Option RouteError → Type ℓ
  Unanswered handler envelope result =
      (h : MessageHandler M) × (handler ≡ some h)
      × (((h envelope ≡ answered none) × (result ≡ none))
          ⊎ ((a : MessageResult M) × (h envelope ≡ answered (some a))
              × (a.message ≡ none)
              × (result ≡ none))
          ⊎ ((a : MessageResult M) × (m : M) × (h envelope ≡ answered (some a))
              × (a.message ≡ some m)
              × (marshal m ≡ none)
              × (result ≡ some marshal_failed)))

module _ (send : InternalEnvelope → Option ℕ) where
  module _ {ℓ} {M : Type ℓ} (marshal : M → Option String) (peer_service : ℕ) where
    respond-Replies :
        (envelope : InternalEnvelope) (message_id : ℕ) (payload : Option String)
        → Replies envelope (respond send marshal peer_service envelope message_id payload).sent
    unfolding respond send_envelope
    respond-Replies envelope message_id none = tt
    respond-Replies envelope message_id (some payload) = (refl, inl refl)

    settle-Replies :
        (envelope : InternalEnvelope) (reply : Bool) (a : Answer M)
        → Replies envelope (settle send marshal peer_service envelope reply a).sent
    unfolding settle send_error send_envelope
    settle-Replies envelope true (failed message) = (refl, inr refl)
    settle-Replies envelope false (failed message) = tt
    settle-Replies envelope reply (answered none) = tt
    settle-Replies envelope reply (answered (some r)) = elim (Option-cases r.message) [
      | inl empty ↦ rw empty tt
      | inr (m, full) ↦ elim (Bool-cases reply) [
        | inr quiet ↦ rw (full, quiet) tt
        | inl asked ↦ rw (full, asked) (respond-Replies envelope r.message_id (marshal m))
      ]
    ]

    dispatch_to-Replies :
        (handler : Option (MessageHandler M)) (envelope : InternalEnvelope) (reply : Bool)
        → Replies envelope (dispatch_to send marshal peer_service handler envelope reply).sent
    unfolding dispatch_to send_error send_envelope
    dispatch_to-Replies none envelope true = (refl, inr refl)
    dispatch_to-Replies none envelope false = tt
    dispatch_to-Replies (some handler) envelope reply =
        settle-Replies envelope reply (handler envelope)

    quiet_settle :
        (envelope : InternalEnvelope) (a : Answer M)
        → (settle send marshal peer_service envelope false a).sent ≡ none
    unfolding settle
    quiet_settle envelope (failed message) = refl
    quiet_settle envelope (answered none) = refl
    quiet_settle envelope (answered (some r)) = ground (arith)

    quiet_dispatch_to :
        (handler : Option (MessageHandler M)) (envelope : InternalEnvelope)
        → (dispatch_to send marshal peer_service handler envelope false).sent ≡ none
    unfolding dispatch_to
    quiet_dispatch_to none envelope = refl
    quiet_dispatch_to (some handler) envelope = quiet_settle envelope (handler envelope)

    handle_kind-Replies :
        (kind : EnvelopeKind) (r : Router M) (envelope : InternalEnvelope)
        → let s = (handle_kind send marshal peer_service kind r envelope).sent in
          ((kind ≡ event) × (s ≡ none)) ⊎ ((kind ≢ event) × Replies envelope s)
    unfolding handle_kind dispatch send_error send_envelope
    handle_kind-Replies event r envelope = inl (
      refl,
      quiet_dispatch_to (handler_of r envelope.target_service envelope.message_id) envelope,
    )
    handle_kind-Replies request r envelope = inr (
      λ e. cc,
      dispatch_to-Replies (handler_of r envelope.target_service envelope.message_id) envelope true,
    )
    handle_kind-Replies response r envelope = inr (λ e. cc, (refl, inr refl))
    handle_kind-Replies error r envelope = inr (λ e. cc, (refl, inr refl))
    handle_kind-Replies (other_kind n) r envelope = inr (λ e. cc, (refl, inr refl))

    -- An event is never replied to; what is sent for any other envelope is one envelope at most, a response or an error,
    -- with the request id of the one that came.
    pub handle-Replies :
        (r : Router M) (envelope : InternalEnvelope)
        → let s = (handle send marshal peer_service r envelope).sent in
          ((envelope.kind ≡ event) × (s ≡ none)) ⊎ ((envelope.kind ≢ event) × Replies envelope s)
    unfolding handle
    handle-Replies r envelope = handle_kind-Replies envelope.kind r envelope

    settle_cases :
        (h : MessageHandler M) (envelope : InternalEnvelope) (a : Answer M)
        → h envelope ≡ a
        → let d = settle send marshal peer_service envelope true a in
          ((e : InternalEnvelope) × (d.sent ≡ some e) × (d.result ≡ send_result send (send e)))
          ⊎ ((d.sent ≡ none) × Unanswered marshal (some h) envelope d.result)
    unfolding settle respond send_error send_envelope
    settle_cases h envelope (failed message) eq = inl (_, refl, refl)
    settle_cases h envelope (answered none) eq = inr (refl, (h, refl, inl (eq, refl)))
    settle_cases h envelope (answered (some a)) eq = elim (Option-cases a.message) [
      | inl empty ↦ rw empty (inr (refl, (h, refl, inr (inl (a, eq, empty, refl)))))
      | inr (m, full) ↦ elim (Option-cases (marshal m)) [
        | inl bad ↦ rw (full, bad) (inr (refl, (h, refl, inr (inr (a, m, eq, full, bad, refl)))))
        | inr (payload, fine) ↦ rw (full, fine) (inl (_, refl, refl))
      ]
    ]

    dispatch_to_cases :
        (handler : Option (MessageHandler M)) (envelope : InternalEnvelope)
        → let d = dispatch_to send marshal peer_service handler envelope true in
          ((e : InternalEnvelope) × (d.sent ≡ some e) × (d.result ≡ send_result send (send e)))
          ⊎ ((d.sent ≡ none) × Unanswered marshal handler envelope d.result)
    unfolding dispatch_to send_error send_envelope
    dispatch_to_cases none envelope = inl (_, refl, refl)
    dispatch_to_cases (some h) envelope = settle_cases h envelope (h envelope) refl

    handle_request :
        (r : Router M) (envelope : InternalEnvelope)
        → envelope.kind ≡ request
        → handle send marshal peer_service r envelope
          ≡ dispatch_to send marshal peer_service
              (handler_of r envelope.target_service envelope.message_id)
              envelope
              true
    unfolding handle handle_kind dispatch
    handle_request r envelope asked =
        subst
          (λ k.
            handle_kind send marshal peer_service k r envelope
            ≡ dispatch send marshal peer_service r envelope true)
          (sym asked) refl

    -- A request is replied to, with the error of the connection as the router's own, except where its handler returns no
    -- result or a result without a message, or where that message cannot be encoded. So a request with no handler, or
    -- with a handler that fails, always gets a reply.
    pub request_answered :
        (r : Router M) (envelope : InternalEnvelope)
        → envelope.kind ≡ request
        → let d = handle send marshal peer_service r envelope in
          ((e : InternalEnvelope) × (d.sent ≡ some e) × (d.result ≡ send_result send (send e)))
          ⊎ ((d.sent ≡ none)
              × Unanswered marshal
                  (handler_of r envelope.target_service envelope.message_id)
                  envelope
                  d.result)
    request_answered r envelope asked =
        rw (handle_request r envelope asked)
          (dispatch_to_cases (handler_of r envelope.target_service envelope.message_id) envelope)
