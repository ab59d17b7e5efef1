-- ===== src/Usercenter/Commands/Replay.antt =====
-- A command whose record is completed does not run again (`withIdempotency` of
-- services/usercenter/components/domain_auth_component.go).
use game01_server.Prelude.{
  ℕ, ◌≡◌, ◌≢◌, ◌⊎◌, inl, inr, refl, Bool, true, false, none, some, List, String, arith,
}
use game01_server.Prelude.Tests.{ltb, Bool-cases, Option-cases}
use game01_server.Prelude.Eq.{string_eq, str_eq, eq_iff}
use game01_server.Prelude.Text.{trim_space}
use game01_server.Storage.{Collection, IsLawful}
use game01_server.Usercenter.Domain.{idempotency_conflict, IdempotencyRecord, is_completed}
use game01_server.Usercenter.IdempotencyRepository.{domain, found, find_error, storage}
use game01_server.Usercenter.IdempotencyRepository.Outcomes.{find_cases}
use game01_server.Usercenter.Commands.{
  Codec, Executed, message, command_error, repository, coding, response_message_id, Command,
  Attempt, Round, replay_idempotency, idempotency_found, with_idempotency,
}

module _ {Message W : Type 0} (codec : Codec Message) (lease ttl : ℕ)
    (run : Bool → W → W × Executed Message) (c : Collection IdempotencyRecord)
    (law : IsLawful c (λ d. d.key)) where
  found-replays :
      (coordinated : Bool) (rounds : List (Round c.Store)) (s : c.Store) (w : W)
      (key operation hash : String) (a : Attempt) (d : IdempotencyRecord)
      → is_completed d ≡ true
      → idempotency_found codec lease ttl run c coordinated rounds s w key operation hash a
          (found d)
        ≡ ((s, w), replay_idempotency codec lease ttl run c d operation hash)
  unfolding idempotency_found
  found-replays coordinated rounds s w key operation hash a d completed_record =
      rw completed_record refl

  lost_read :
      (coordinated : Bool) (rounds : List (Round c.Store)) (s : c.Store) (w : W)
      (key operation hash : String) (a : Attempt) (n : ℕ)
      → idempotency_found codec lease ttl run c coordinated rounds s w key operation hash a
          (find_error (storage n))
        ≡ ((s, w), command_error (repository (storage n)))
  unfolding idempotency_found
  lost_read coordinated rounds s w key operation hash a n = refl

  -- The answers of a completed record.
  replay_idempotency_cases :
      (d : IdempotencyRecord) (operation hash : String)
      → let answer = replay_idempotency codec lease ttl run c d operation hash in
        (((d.operation ≢ operation) ⊎ (d.request_hash ≢ hash))
          × (answer ≡ command_error (repository (domain idempotency_conflict))))
        ⊎ ((d.operation ≡ operation)
            × (d.request_hash ≡ hash)
            × (((codec.unmarshal d.response ≡ none) × (answer ≡ command_error coding))
                ⊎ ((m : Message) × (codec.unmarshal d.response ≡ some m)
                    × (answer ≡ message (response_message_id operation) m))))
  unfolding replay_idempotency
  replay_idempotency_cases d operation hash = elim (Bool-cases (str_eq d.operation operation)) [
    | inr e ↦ inl (inl (λ h. ground (arith, e, h, eq_iff d.operation operation)), ground (arith, e))
    | inl e ↦ elim (Bool-cases (str_eq d.request_hash hash)) [
      | inr o ↦
          inl (inr (λ h. ground (arith, o, h, eq_iff d.request_hash hash)), ground (arith, e, o))
      | inl o ↦ inr (
        ground (arith, e, eq_iff d.operation operation),
        ground (arith, o, eq_iff d.request_hash hash),
        elim (Option-cases (codec.unmarshal d.response)) [
          | inl h ↦ inl (h, ground (arith, e, o, h))
          | inr (m, h) ↦ inr (m, h, ground (arith, e, o, h))
        ],
      )
    ]
  ]

  -- A completed record answers for the command.
  pub with_idempotency_completed :
      (coordinated : Bool) (rounds : List (Round c.Store)) (s : c.Store) (w : W) (cmd : Command)
      (a : Attempt) (hash : String) (d : IdempotencyRecord)
      → str_eq (trim_space cmd.key) "" ≡ false
      → cmd.request_hash ≡ some hash
      → law.document s (trim_space cmd.key) ≡ some d
      → ltb a.now d.expires_at ≡ true
      → is_completed d ≡ true
      → let answer = with_idempotency codec lease ttl run c coordinated rounds s w cmd a in
        (answer ≡ ((s, w), replay_idempotency codec lease ttl run c d cmd.operation hash))
        ⊎ ((n : ℕ) × (answer ≡ ((s, w), command_error (repository (storage n)))))
  unfolding with_idempotency
  with_idempotency_completed coordinated rounds s w cmd a hash d named hashed_to there live
        completed_record =
      elim (find_cases c law s (trim_space cmd.key) a.now d named there) [
        | inl (n, h) ↦ inr (
          n,
          rw (named, hashed_to, h)
              (lost_read coordinated rounds s w (trim_space cmd.key) cmd.operation hash a n),
        )
        | inr (inl (_, h)) ↦ inl (
            rw (named, hashed_to, h)
              (found-replays coordinated rounds s w (trim_space cmd.key) cmd.operation hash a d
                completed_record))
        | inr (inr (dead, _)) ↦ absurd (ground (arith, live, dead))
      ]

  -- A request with a key that has a completed record which has not expired does not run the command, and changes neither its
  -- state nor the records. The driver failed, and that is the error; or the operation or the hash is not that of the record,
  -- and the answer is a conflict; or both are, and it is the message in the record under the operation's number, or an
  -- error where the bytes in the record are not a message.
  pub with_idempotency-replays :
      (coordinated : Bool) (rounds : List (Round c.Store)) (s : c.Store) (w : W) (cmd : Command)
      (a : Attempt) (hash : String) (d : IdempotencyRecord)
      → str_eq (trim_space cmd.key) "" ≡ false
      → cmd.request_hash ≡ some hash
      → law.document s (trim_space cmd.key) ≡ some d
      → ltb a.now d.expires_at ≡ true
      → is_completed d ≡ true
      → let answer = with_idempotency codec lease ttl run c coordinated rounds s w cmd a in
        (answer.0 ≡ (s, w))
        × (((n : ℕ) × (answer.1 ≡ command_error (repository (storage n))))
            ⊎ (((d.operation ≢ cmd.operation) ⊎ (d.request_hash ≢ hash))
                × (answer.1 ≡ command_error (repository (domain idempotency_conflict))))
            ⊎ ((d.operation ≡ cmd.operation)
                × (d.request_hash ≡ hash)
                × (((codec.unmarshal d.response ≡ none) × (answer.1 ≡ command_error coding))
                    ⊎ ((m : Message) × (codec.unmarshal d.response ≡ some m)
                        × (answer.1 ≡ message (response_message_id cmd.operation) m)))))
  with_idempotency-replays coordinated rounds s w cmd a hash d named hashed_to there live
        completed_record =
      elim (with_idempotency_completed coordinated rounds s w cmd a hash d named hashed_to there
        live completed_record) [
          | inr (n, h) ↦ rw h (refl, inl (n, refl))
          | inl h ↦ rw h (
            refl,
            elim (replay_idempotency_cases d cmd.operation hash) [
              | inl conflict ↦ inr (inl conflict)
              | inr decoded ↦ inr (inr decoded)
            ],
          )
        ]
