-- ===== src/Usercenter/Commands.antt =====
-- `withIdempotency` of services/usercenter/components/domain_auth_component.go, which runs a command once for each key, with
-- what it calls there. The command is a function on a state `W` of its own; encoding is a parameter. The renewals that fall in
-- the run of a command are given by their times, and what others do to the store while a call waits by a function for each
-- round; a call that has not ended after its rounds is `waiting`. The lock of a key in this process is left out: calls of other
-- processes come between all the same.
pub mod Replay
pub mod Record
pub mod Once
mod Examples
use game01_server.Prelude.{
  ℕ, ◌+◌, Bool, false, not, ◌&&◌, ◌||◌, Option, none, some, List, [], ◌∷◌, String,
}
use game01_server.Prelude.Tests.{ltb, if◌then◌else◌}
use game01_server.Prelude.Eq.{str_eq}
use game01_server.Prelude.Maps.{is_some}
use game01_server.Prelude.Text.{trim_space}
use game01_server.Storage.{Collection}
use game01_server.Usercenter.Domain.{
  idempotency_conflict, pending, unset, IdempotencyRecord, is_completed,
}
use game01_server.Usercenter.IdempotencyRepository.{
  RepositoryError, domain, not_found, Found, found, find_error, Reserved, owned, seen,
  reserve_error, find, create, reserve, complete, release, renew,
}

-- `none` where an encoding fails.
pub record Codec (Message : Type 0) : Type 0 where
  pub marshal : Message → Option String
  pub unmarshal : String → Option Message

pub data MessageId : Type 0 where
  guest_response password_response refresh_response revoke_response : MessageId
  client_login_response client_refresh_response : MessageId

unfoldable pub response_message_id : String → MessageId
response_message_id operation =
    if str_eq operation "guest_authenticate"
    then guest_response
    else (if str_eq operation "password_authenticate"
        then password_response
        else (if str_eq operation "refresh_authenticate"
            then refresh_response
            else revoke_response))

pub data CommandError : Type 0 where
  repository : RepositoryError → CommandError
  coding no_identity cancelled : CommandError
  execution : ℕ → CommandError

-- What a command returns: a message, none, or an error.
pub data Executed (Message : Type 0) : Type 0 where
  replied : MessageId → Message → Executed Message
  silent : Executed Message
  failed_with : ℕ → Executed Message

pub data Result (Message : Type 0) : Type 0 where
  message : MessageId → Message → Result Message
  no_message waiting : Result Message
  command_error : CommandError → Result Message

-- A command as it is told apart from others: the hash is that of the request without its key, `none` where it cannot be
-- encoded.
pub record Command : Type 0 where
  pub key : String
  pub operation : String
  pub request_hash : Option String

-- The readings of the clock, by the component and by the mapper; the generated identity; the ticks of the renewals; and the
-- time at the end of the run.
pub record Attempt : Type 0 where
  pub now : ℕ
  pub clock : ℕ
  pub reservation_id : Option String
  pub ticks : List ℕ
  pub finished : ℕ

pub record Round (S : Type 0) : Type 0 where
  pub others : S → S
  pub attempt : Attempt
  pub ends : Bool

module _ {Message W : Type 0} (codec : Codec Message) (lease ttl : ℕ)
    (run : Bool → W → W × Executed Message) (c : Collection IdempotencyRecord) where
  unfoldable pub replay_idempotency : IdempotencyRecord → String → String → Result Message
  unfolding response_message_id
  replay_idempotency d operation hash =
      if not (str_eq d.operation operation) || not (str_eq d.request_hash hash)
      then command_error (repository (domain idempotency_conflict))
      else elim (codec.unmarshal d.response) [
        | none ↦ command_error coding
        | some m ↦ message (response_message_id operation) m
      ]

  -- The renewals up to the first that fails.
  unfoldable pub renew_idempotency_lease :
      c.Store → String → String → List ℕ → c.Store × Option RepositoryError
  renew_idempotency_lease s key id [] = (s, none)
  renew_idempotency_lease s key id (t ∷ ticks) =
      let (s', failure) = renew c s key id (t + lease) t in
      let rest = renew_idempotency_lease s' key id ticks in
      elim failure [ none ↦ rest | some e ↦ (s', some e) ]

  abbrev pub run_error : Executed Message → Option RepositoryError → Result Message
  run_error (failed_with n) lost = command_error (execution n)
  run_error _ (some e) = command_error (repository e)
  run_error _ none = no_message

  abbrev pub completed_result : MessageId → Message → Option RepositoryError → Result Message
  completed_result id m none = message id m
  completed_result id m (some e) = command_error (repository e)

  -- The end of a run.
  unfoldable pub finish_reserved :
      c.Store
      → W
      → String
      → String
      → ℕ
      → Executed Message
      → Option RepositoryError
      → (c.Store × W) × Result Message
  finish_reserved s w key id now (replied mid m) none = elim (codec.marshal m) [
    | none ↦ (((release c s key id).0, w), command_error coding)
    | some bytes ↦
        let (s', failure) = complete c s key id bytes now in
        ((s', w), completed_result mid m failure)
  ]
  finish_reserved s w key id now e lost = (((release c s key id).0, w), run_error e lost)

  unfoldable pub execute_reserved :
      c.Store → W → String → String → Attempt → (c.Store × W) × Result Message
  unfolding renew_idempotency_lease finish_reserved
  execute_reserved s w key id a =
      let (s', lost) = renew_idempotency_lease s key id a.ticks in
      let (w', e) = run (is_some lost) w in finish_reserved s' w' key id a.finished e lost

  abbrev pub pending_record : String → String → String → String → ℕ → IdempotencyRecord
  pending_record key operation hash id now = record {
    key = key;
    operation = operation;
    account_id = "";
    request_hash = hash;
    response = "";
    state = pending;
    reservation_id = id;
    lease_until = now + lease;
    created_at = now;
    expires_at = now + ttl;
  }

  -- The second half of a round: the record is read, and `next` goes on with the store and the deadline.
  abbrev pub look :
      Round c.Store
      → c.Store
      → W
      → String
      → String
      → ((c.Store × W) × Result Message)
      → Found
      → (c.Store × W) × Result Message
  look r s w operation hash next (found d) =
      if is_completed d
      then ((s, w), replay_idempotency d operation hash)
      else (if r.ends then ((s, w), command_error cancelled) else next)
  look r s w operation hash next (find_error not_found) =
      if r.ends then ((s, w), command_error cancelled) else next
  look r s w operation hash next (find_error e) = ((s, w), command_error (repository e))

  abbrev pub take_over :
      Round c.Store
      → W
      → String
      → String
      → String
      → (c.Store → ℕ → (c.Store × W) × Result Message)
      → String
      → c.Store × Reserved
      → (c.Store × W) × Result Message
  take_over r w key operation hash next id (s, reserve_error e) =
      ((s, w), command_error (repository e))
  take_over r w key operation hash next id (s, owned d) = execute_reserved s w key id r.attempt
  take_over r w key operation hash next id (s, seen d) =
      if is_completed d
      then ((s, w), replay_idempotency d operation hash)
      else look r s w operation hash (next s d.lease_until) (find c s key r.attempt.now)

  abbrev pub overdue :
      Round c.Store
      → c.Store
      → W
      → String
      → String
      → String
      → (c.Store → ℕ → (c.Store × W) × Result Message)
      → Option String
      → (c.Store × W) × Result Message
  overdue r s w key operation hash next none = ((s, w), command_error no_identity)
  overdue r s w key operation hash next (some id) = take_over r w key operation hash next id (
      reserve c s (pending_record key operation hash id r.attempt.now) r.attempt.now
        r.attempt.clock)

  unfoldable pub wait_for_idempotency :
      List (Round c.Store)
      → c.Store
      → W
      → String
      → String
      → String
      → ℕ
      → (c.Store × W) × Result Message
  wait_for_idempotency [] s w key operation hash deadline = ((s, w), waiting)
  wait_for_idempotency (r ∷ rounds) s w key operation hash deadline =
      let s' = r.others s in
      let next : c.Store → ℕ → (c.Store × W) × Result Message =
        λ t d. wait_for_idempotency rounds t w key operation hash d in
      if ltb deadline r.attempt.now
      then overdue r s' w key operation hash next r.attempt.reservation_id
      else look r s' w operation hash (next s' deadline) (find c s' key r.attempt.now)

  -- With a coordinator: the key is reserved first.
  abbrev pub after_reserve :
      List (Round c.Store)
      → W
      → String
      → String
      → String
      → String
      → Attempt
      → c.Store × Reserved
      → (c.Store × W) × Result Message
  after_reserve rounds w key operation hash id a (s, reserve_error e) =
      ((s, w), command_error (repository e))
  after_reserve rounds w key operation hash id a (s, owned d) = execute_reserved s w key id a
  after_reserve rounds w key operation hash id a (s, seen d) =
      if is_completed d
      then ((s, w), replay_idempotency d operation hash)
      else wait_for_idempotency rounds s w key operation hash (a.now + lease)

  abbrev pub reserve_command :
      List (Round c.Store)
      → c.Store
      → W
      → String
      → String
      → String
      → Attempt
      → Option String
      → (c.Store × W) × Result Message
  reserve_command rounds s w key operation hash a none = ((s, w), command_error no_identity)
  reserve_command rounds s w key operation hash a (some id) =
      after_reserve rounds w key operation hash id a
        (reserve c s (pending_record key operation hash id a.now) a.now a.clock)

  -- Without one: the record is created after the run.
  abbrev pub conflicting : String → String → Found → Result Message
  conflicting operation hash (found d) = replay_idempotency d operation hash
  conflicting operation hash (find_error not_found) =
      command_error (repository (domain idempotency_conflict))
  conflicting operation hash (find_error e) = command_error (repository e)

  abbrev pub created_result :
      c.Store
      → String
      → String
      → String
      → ℕ
      → MessageId
      → Message
      → Option RepositoryError
      → Result Message
  created_result s key operation hash now mid m none = message mid m
  created_result s key operation hash now mid m (some (domain idempotency_conflict)) =
      conflicting operation hash (find c s key now)
  created_result s key operation hash now mid m (some e) = command_error (repository e)

  unfoldable pub store_result :
      c.Store
      → W
      → String
      → String
      → String
      → Attempt
      → Executed Message
      → (c.Store × W) × Result Message
  store_result s w key operation hash a (failed_with n) = ((s, w), command_error (execution n))
  store_result s w key operation hash a silent = ((s, w), no_message)
  store_result s w key operation hash a (replied mid m) = elim (codec.marshal m) [
    | none ↦ ((s, w), command_error coding)
    | some bytes ↦
        let (s', failure) =
          create c s
            (record (pending_record key operation hash "" a.now) {
              response = bytes;
              state = unset;
              lease_until = 0;
            })
            a.clock in
        ((s', w), created_result s' key operation hash a.now mid m failure)
  ]

  unfoldable pub idempotency_found :
      Bool
      → List (Round c.Store)
      → c.Store
      → W
      → String
      → String
      → String
      → Attempt
      → Found
      → (c.Store × W) × Result Message
  unfolding replay_idempotency wait_for_idempotency store_result
  idempotency_found coordinated rounds s w key operation hash a (found d) =
      if is_completed d
      then ((s, w), replay_idempotency d operation hash)
      else (if coordinated
            && not (not (str_eq d.operation operation) || not (str_eq d.request_hash hash))
          then wait_for_idempotency rounds s w key operation hash d.lease_until
          else ((s, w), command_error (repository (domain idempotency_conflict))))
  idempotency_found coordinated rounds s w key operation hash a (find_error not_found) =
      let (w', e) = run false w in
      if coordinated
      then reserve_command rounds s w key operation hash a a.reservation_id
      else store_result s w' key operation hash a e
  idempotency_found coordinated rounds s w key operation hash a (find_error e) =
      ((s, w), command_error (repository e))

  abbrev pub executed_result : Executed Message → Result Message
  executed_result (replied mid m) = message mid m
  executed_result silent = no_message
  executed_result (failed_with n) = command_error (execution n)

  abbrev pub hashed :
      Bool
      → List (Round c.Store)
      → c.Store
      → W
      → String
      → String
      → Attempt
      → Option String
      → (c.Store × W) × Result Message
  hashed coordinated rounds s w key operation a none = ((s, w), command_error coding)
  hashed coordinated rounds s w key operation a (some hash) =
      idempotency_found coordinated rounds s w key operation hash a (find c s key a.now)

  unfoldable pub with_idempotency :
      Bool → List (Round c.Store) → c.Store → W → Command → Attempt → (c.Store × W) × Result Message
  unfolding idempotency_found
  with_idempotency coordinated rounds s w cmd a =
      let key = trim_space cmd.key in
      let (w', e) = run false w in
      let kept = hashed coordinated rounds s w key cmd.operation a cmd.request_hash in
      if str_eq key "" then ((s, w'), executed_result e) else kept
