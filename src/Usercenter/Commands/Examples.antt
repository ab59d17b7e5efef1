-- ===== src/Usercenter/Commands/Examples.antt =====
-- Concrete commands of services/usercenter/components/domain_auth_component.go, with a collection in memory.
use game01_server.Prelude.{
  ℕ, suc, ◌≡◌, ◌≢◌, ◌⊎◌, ◌∙◌, refl, sym, Bool, true, false, Option, none, some, List, [], ◌∷◌,
  String,
}
use game01_server.Prelude.Text.{trim_space}
use game01_server.Storage.{Collection}
use game01_server.Storage.Memory.{memory, memory-IsLawful, memory-IsLawful-document}
use game01_server.Usercenter.Domain.{
  idempotency_conflict, IdempotencyRecord, pending, completed, is_completed,
}
use game01_server.Usercenter.IdempotencyRepository.{domain, storage}
use game01_server.Usercenter.Commands.{
  Codec, guest_response, response_message_id, Executed, replied, message, command_error, repository,
  coding, Command, Attempt, execute_reserved, replay_idempotency, with_idempotency,
}
use game01_server.Usercenter.Commands.Replay.{with_idempotency-replays}
use game01_server.Usercenter.Commands.Once.{execute_reserved_once}

abbrev text : Codec String
text = record { marshal = λ m. some m; unmarshal = λ b. some b }

-- The command counts its runs.
abbrev count : Bool → ℕ → ℕ × Executed String
count stopped n = (suc n, replied guest_response "welcome")

abbrev records : Collection IdempotencyRecord
records = memory (λ d. d.key)

abbrev reserved : IdempotencyRecord
reserved = record {
  key = "k1";
  operation = "guest_authenticate";
  account_id = "";
  request_hash = "h1";
  response = "";
  state = pending;
  reservation_id = "r1";
  lease_until = 130;
  created_at = 100;
  expires_at = 500;
}

abbrev guest_login : Command
guest_login = record { key = " k1"; operation = "guest_authenticate"; request_hash = some "h1" }

abbrev attempt : Attempt
attempt = record {
  now = 100;
  clock = 100;
  reservation_id = some "r1";
  ticks = 110 ∷ [];
  finished = 115;
}

abbrev done_record : IdempotencyRecord
done_record = record reserved { state = completed; response = "welcome"; lease_until = 0 }

with_idempotency-replays_example :
    let answer =
      with_idempotency text 30 400 count records true []
        (("k1", done_record) ∷ [])
        1
        guest_login
        attempt in
    (answer.0 ≡ ((("k1", done_record) ∷ []), 1))
    × (((n : ℕ) × (answer.1 ≡ command_error (repository (storage n))))
        ⊎ (((done_record.operation ≢ guest_login.operation) ⊎ (done_record.request_hash ≢ "h1"))
            × (answer.1 ≡ command_error (repository (domain idempotency_conflict))))
        ⊎ ((done_record.operation ≡ guest_login.operation)
            × (done_record.request_hash ≡ "h1")
            × (((text.unmarshal "welcome" ≡ none) × (answer.1 ≡ command_error coding))
                ⊎ ((m : String) × (text.unmarshal "welcome" ≡ some m)
                    × (answer.1 ≡ message (response_message_id "guest_authenticate") m)))))
unfolding trim_space is_completed game01_server.Prelude.Maps.get
with_idempotency-replays_example =
    with_idempotency-replays text 30 400 count records (memory-IsLawful (λ d. d.key)) true []
      (("k1", done_record) ∷ []) 1 guest_login attempt "h1" done_record refl refl
      (memory-IsLawful-document (λ d. d.key) (("k1", done_record) ∷ []) "k1") refl refl

execute_reserved_once_example :
    let after =
      (execute_reserved text 30 400 count records (("k1", reserved) ∷ []) 0 "k1" "r1" attempt).0 in
    let again =
      with_idempotency text 30 400 count records true [] after.0 after.1 guest_login
        (record attempt { now = 200 }) in
    (again ≡ (after, message (response_message_id "guest_authenticate") "welcome"))
    ⊎ ((n : ℕ) × (again ≡ (after, command_error (repository (storage n)))))
unfolding trim_space execute_reserved game01_server.Prelude.Maps.get game01_server.Prelude.Maps.put
    game01_server.Usercenter.IdempotencyRepository.renew
    game01_server.Usercenter.IdempotencyRepository.complete
    game01_server.Usercenter.Commands.renew_idempotency_lease
    game01_server.Usercenter.Commands.finish_reserved
execute_reserved_once_example =
    execute_reserved_once records (memory-IsLawful (λ d. d.key)) text 30 400 count reserved
      (("k1", reserved) ∷ []) 0 "r1" attempt guest_response "welcome" guest_login true []
      (record attempt { now = 200 }) (λ x bytes e. sym e) refl refl refl refl
      (
        reserved,
        memory-IsLawful-document (λ d. d.key) (("k1", reserved) ∷ []) "k1",
        refl,
        refl,
        refl,
      )
      refl
