-- ===== src/Usercenter/Commands/Once.antt =====
-- A command that has run and was answered is not run again (`executeReserved` and `withIdempotency` of
-- services/usercenter/components/domain_auth_component.go).
use game01_server.Prelude.{
  ℕ, ◌+◌, ◌≡◌, ◌⊎◌, ◌∙◌, inl, inr, refl, sym, subst, ap, Bool, true, false, not, ◌||◌, Option, none,
  some, List, [], ◌∷◌, String, arith,
}
use game01_server.Prelude.Tests.{ltb, Option-cases}
use game01_server.Prelude.Eq.{str_eq, eq_iff}
use game01_server.Prelude.Maps.{is_some}
use game01_server.Prelude.Text.{trim_space}
use game01_server.Storage.{Collection, IsLawful}
use game01_server.Usercenter.Domain.{IdempotencyRecord, is_completed, completed}
use game01_server.Usercenter.IdempotencyRepository.{RepositoryError, storage, renew, complete}
use game01_server.Usercenter.Commands.{
  Codec, MessageId, response_message_id, Executed, replied, silent, failed_with, Result, message,
  command_error, repository, Command, Attempt, Round, renew_idempotency_lease, finish_reserved,
  completed_result, execute_reserved, replay_idempotency, with_idempotency,
}
use game01_server.Usercenter.Commands.Replay.{with_idempotency_completed}
use game01_server.Usercenter.Commands.Record.{Carries, renew-Carries, complete-Carries}

message_or : {Message : Type 0} → Message → Result Message → Message
message_or m (message id m') = m'
message_or m _ = m

module _ (c : Collection IdempotencyRecord) (law : IsLawful c (λ d. d.key)) where
  module _ {Message W : Type 0} (codec : Codec Message) (lease ttl : ℕ)
      (run : Bool → W → W × Executed Message) where
    -- The record keeps the answer of the command.
    abbrev pub Answers : IdempotencyRecord → Message → Option IdempotencyRecord → Type 0
    Answers r m o =
        (d : IdempotencyRecord) × (o ≡ some d)
        × (d.operation ≡ r.operation)
        × (d.request_hash ≡ r.request_hash)
        × (d.expires_at ≡ r.expires_at)
        × (d.state ≡ completed)
        × (codec.marshal m ≡ some d.response)

    renewals-Carries :
        (r : IdempotencyRecord) (s : c.Store) (key id : String) (ticks : List ℕ)
        → Carries r (law.document s key)
        → Carries r
            (law.document (renew_idempotency_lease codec lease ttl run c s key id ticks).0 key)
    unfolding renew_idempotency_lease
    renewals-Carries r s key id [] carried = carried
    renewals-Carries r s key id (t ∷ ticks) carried =
        let s' = (renew c s key id (t + lease) t).0 in
        let renewed = renew-Carries c law r s key id (t + lease) t carried in
        elim (Option-cases (renew c s key id (t + lease) t).1) [
          | inl fine ↦
              rw (renew_idempotency_lease, fine) (renewals-Carries r s' key id ticks renewed)
          | inr (e, lost) ↦ rw (renew_idempotency_lease, lost) renewed
        ]

    completed_message :
        (mid mid' : MessageId) (m m' : Message) (failure : Option RepositoryError)
        → completed_result codec lease ttl run c mid m failure ≡ message mid' m'
        → (failure ≡ none) × (m ≡ m')
    unfolding message_or
    completed_message mid mid' m m' (some e) h = absurd (ground (arith, h))
    completed_message mid mid' m m' none h = (refl, ap (message_or m) h)

    finish-Answers :
        (r : IdempotencyRecord) (s : c.Store) (w : W) (key id : String) (now : ℕ)
        (e : Executed Message) (lost : Option RepositoryError) (mid : MessageId) (m : Message)
        → Carries r (law.document s key)
        → (finish_reserved codec lease ttl run c s w key id now e lost).1 ≡ message mid m
        → Answers r m
            (law.document (finish_reserved codec lease ttl run c s w key id now e lost).0.0 key)
    unfolding finish_reserved
    finish-Answers r s w key id now silent none mid m carried = λ h. absurd (ground (arith, h))
    finish-Answers r s w key id now silent (some l) mid m carried = λ h. absurd (ground (arith, h))
    finish-Answers r s w key id now (failed_with n) none mid m carried =
        λ h. absurd (ground (arith, h))
    finish-Answers r s w key id now (failed_with n) (some l) mid m carried =
        λ h. absurd (ground (arith, h))
    finish-Answers r s w key id now (replied i x) (some l) mid m carried =
        λ h. absurd (ground (arith, h))
    finish-Answers r s w key id now (replied i x) none mid m carried =
        elim (Option-cases (codec.marshal x)) [
          | inl bad ↦ rw (finish_reserved, bad) (λ h. absurd (ground (arith, h)))
          | inr (bytes, coded) ↦
              rw (finish_reserved, coded)
                (λ h.
                  let (fine, same) =
                    completed_message i mid x m (complete c s key id bytes now).1 h in
                  let (d, stored, op, hash, expiry, state, response) =
                    complete-Carries c law r s key id bytes now carried fine in
                  (
                    d,
                    stored,
                    op,
                    hash,
                    expiry,
                    state,
                    ap codec.marshal (sym same) ∙ coded ∙ ap some (sym response),
                  ))
        ]

    -- `executeReserved` that ends with a message: the record of the key, which was one of the command, is completed with
    -- that message, whatever renewals there were.
    pub execute_reserved-Answers :
        (r : IdempotencyRecord) (s : c.Store) (w : W) (key id : String) (a : Attempt)
        (mid : MessageId) (m : Message)
        → Carries r (law.document s key)
        → (execute_reserved codec lease ttl run c s w key id a).1 ≡ message mid m
        → Answers r m (law.document (execute_reserved codec lease ttl run c s w key id a).0.0 key)
    unfolding execute_reserved
    execute_reserved-Answers r s w key id a mid m carried =
        let (s', lost) = renew_idempotency_lease codec lease ttl run c s key id a.ticks in
        finish-Answers r s' (run (is_some lost) w).0 key id a.finished (run (is_some lost) w).1 lost
          mid m (renewals-Carries r s key id a.ticks carried)

    replay_same :
        (d : IdempotencyRecord) (operation hash : String) (m : Message)
        → d.operation ≡ operation
        → d.request_hash ≡ hash
        → codec.unmarshal d.response ≡ some m
        → replay_idempotency codec lease ttl run c d operation hash
          ≡ message (response_message_id operation) m
    unfolding replay_idempotency
    replay_same d operation hash m op same decoded =
        let alike : (not (str_eq d.operation operation) || not (str_eq d.request_hash hash))
            ≡ false =
          ground
            (arith, (eq_iff d.operation operation).1 op, (eq_iff d.request_hash hash).1 same) in
        rw (replay_idempotency, alike, decoded) refl

    completed_is : (d : IdempotencyRecord) → d.state ≡ completed → is_completed d ≡ true
    unfolding is_completed
    completed_is d h = rw h refl

    -- A command that was reserved under a key, has run and was answered with a message is not run again: a request with the
    -- key and the same command, at any time before the record expires, changes nothing and is answered with the same
    -- message, or with an error of the driver. The message's encoding can be decoded.
    pub execute_reserved_once :
        (r : IdempotencyRecord) (s : c.Store) (w : W) (id : String) (a : Attempt) (mid : MessageId)
        (m : Message) (cmd : Command) (coordinated : Bool) (rounds : List (Round c.Store))
        (b : Attempt)
        → ((x : Message) (bytes : String)
            → codec.marshal x ≡ some bytes
            → codec.unmarshal bytes ≡ some x)
        → str_eq (trim_space cmd.key) "" ≡ false
        → cmd.request_hash ≡ some r.request_hash
        → r.operation ≡ cmd.operation
        → ltb b.now r.expires_at ≡ true
        → Carries r (law.document s (trim_space cmd.key))
        → (execute_reserved codec lease ttl run c s w (trim_space cmd.key) id a).1 ≡ message mid m
        → let after = (execute_reserved codec lease ttl run c s w (trim_space cmd.key) id a).0 in
          let again =
            with_idempotency codec lease ttl run c coordinated rounds after.0 after.1 cmd b in
          (again ≡ (after, message (response_message_id cmd.operation) m))
          ⊎ ((n : ℕ) × (again ≡ (after, command_error (repository (storage n)))))
    execute_reserved_once r s w id a mid m cmd coordinated rounds b decodes named hash operation
          live carried h =
        let after = (execute_reserved codec lease ttl run c s w (trim_space cmd.key) id a).0 in
        let (d, there, op, same, expiry, state, coded) =
          execute_reserved-Answers r s w (trim_space cmd.key) id a mid m carried h in
        elim (with_idempotency_completed codec lease ttl run c law coordinated rounds after.0
          after.1 cmd b r.request_hash d named hash there
          (subst (λ t. ltb b.now t ≡ true) (sym expiry) live) (completed_is d state)) [
            | inl replayed ↦ inl (
                replayed
                ∙ ap (λ x. (after, x))
                    (replay_same d cmd.operation r.request_hash m (op ∙ operation) same
                      (decodes m d.response coded)))
            | inr lost ↦ inr lost
          ]
