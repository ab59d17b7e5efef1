-- ===== src/Usercenter/IdempotencyRepository.antt =====
-- services/usercenter/repository/mongo/idempotency_repository.go, on a collection with the unique field `key`. A document
-- has the fields of the record; a field that is not set is zero. Each call of the driver is a definition of its own, which
-- an operation composes. Neither the repository nor its collection is nil.
pub mod Calls
pub mod Protection
pub mod Outcomes
pub mod Reserve
mod Examples
use game01_server.Prelude.{ℕ, Bool, true, false, not, ◌&&◌, ◌||◌, Option, none, some, String}
use game01_server.Prelude.Tests.{ltb, leb, ◌==◌, if◌then◌else◌}
use game01_server.Prelude.Eq.{str_eq}
use game01_server.Storage.{
  Reply, ok, failed, Inserted, inserted, duplicate_key, insert_failed, Collection,
}
use game01_server.Usercenter.Domain.{
  Error, invalid_idempotency, idempotency_conflict, idempotency_lease_lost, IdempotencyState, unset,
  pending, completed, unknown, IdempotencyRecord, validate_record, is_completed,
}

-- `not_found` is `ErrIdempotencyNotFound`, `storage` an error of the driver.
pub data RepositoryError : Type 0 where
  domain : Error → RepositoryError
  not_found : RepositoryError
  storage : ℕ → RepositoryError

pub data Found : Type 0 where
  found : IdempotencyRecord → Found
  find_error : RepositoryError → Found

-- `Reserve` returns a record with the flag that says who owns it, or an error.
pub data Reserved : Type 0 where
  owned seen : IdempotencyRecord → Reserved
  reserve_error : RepositoryError → Reserved

abbrev pub is_pending : IdempotencyState → Bool
is_pending pending = true
is_pending _ = false

-- The tests of the filters.
abbrev pub is_live : ℕ → IdempotencyRecord → Bool
is_live now d = ltb now d.expires_at

abbrev pub is_stale : ℕ → IdempotencyRecord → Bool
is_stale now d = leb d.expires_at now || (is_pending d.state && leb d.lease_until now)

abbrev pub is_claimable : String → ℕ → IdempotencyRecord → Bool
is_claimable reservation_id now d =
    is_pending d.state && (str_eq d.reservation_id reservation_id && leb d.lease_until now)

abbrev pub is_held : String → IdempotencyRecord → Bool
is_held reservation_id d = is_pending d.state && str_eq d.reservation_id reservation_id

abbrev pub is_held_live : String → ℕ → IdempotencyRecord → Bool
is_held_live reservation_id now d =
    is_pending d.state && (str_eq d.reservation_id reservation_id && ltb now d.expires_at)

abbrev pub is_abandoned : ℕ → IdempotencyRecord → Bool
is_abandoned now d = is_pending d.state && (leb d.lease_until now || leb d.expires_at now)

-- The updates.
abbrev pub claim : IdempotencyRecord → IdempotencyRecord → IdempotencyRecord
claim r d = record d { reservation_id = r.reservation_id; lease_until = r.lease_until }

abbrev pub finish : String → IdempotencyRecord → IdempotencyRecord
finish response d = record d { state = completed; response = response; lease_until = 0 }

abbrev pub extend : ℕ → IdempotencyRecord → IdempotencyRecord
extend lease_until d = record d { lease_until = lease_until }

abbrev pub or_pending : IdempotencyRecord → IdempotencyRecord
or_pending r = record r { state = elim r.state [ unset ↦ pending | t ↦ t ] }

module _ (c : Collection IdempotencyRecord) where
  open c use {Store, find_one, insert_one, update_one, find_one_and_update, delete_one, delete_many}

  abbrev pub found_of : Reply (Option IdempotencyRecord) → Found
  found_of (failed e) = find_error (storage e)
  found_of (ok none) = find_error not_found
  found_of (ok (some d)) = found d

  unfoldable pub find : Store → String → ℕ → Found
  find s key now =
      if str_eq key ""
      then find_error (domain invalid_idempotency)
      else found_of (find_one s key (is_live now))

  -- `Create`; the mapper validates the record with a clock reading of its own.
  unfoldable pub create : Store → IdempotencyRecord → ℕ → Store × Option RepositoryError
  create s r clock =
      let (document, invalid) = validate_record r clock in
      let (s', done) = insert_one s document in
      elim invalid [
        | some e ↦ (s, some (domain e))
        | none ↦ (
          s',
          elim done [
            | inserted ↦ none
            | duplicate_key ↦ some (domain idempotency_conflict)
            | insert_failed e ↦ some (storage e)
          ],
        )
      ]

  -- The call that claims a stale reservation, which `current` has shown.
  unfoldable pub claim_call :
      Store → IdempotencyRecord → IdempotencyRecord → ℕ → Store × Reply (Option IdempotencyRecord)
  claim_call s r current now =
      find_one_and_update s r.key (is_claimable current.reservation_id now) (claim r)

  unfoldable pub remove_stale : Store → String → ℕ → Store × Reply ℕ
  remove_stale s key now = delete_one s key (is_stale now)

  abbrev pub seen_of : Found → Reserved
  seen_of (find_error e) = reserve_error e
  seen_of (found d) = seen d

  abbrev pub claimed_of : Reply (Option IdempotencyRecord) → Found → Reserved
  claimed_of (failed e) latest = reserve_error (storage e)
  claimed_of (ok none) latest = seen_of latest
  claimed_of (ok (some d)) latest = owned d

  -- The end of `Reserve`, with the record that holds the key.
  unfoldable pub reserve_current :
      Store → IdempotencyRecord → ℕ → IdempotencyRecord → Store × Reserved
  unfolding claim_call
  reserve_current s r now current =
      let (s', reply) = claim_call s r current now in
      if not (str_eq current.operation r.operation)
        || not (str_eq current.request_hash r.request_hash)
      then (s, reserve_error (domain idempotency_conflict))
      else (if is_completed current || ltb now current.lease_until
          then (s, seen current)
          else (s', claimed_of reply (find s' r.key now)))

  unfoldable pub reserve_found : Store → IdempotencyRecord → ℕ → Found → Store × Reserved
  unfolding reserve_current
  reserve_found s r now (find_error e) = (s, reserve_error e)
  reserve_found s r now (found current) = reserve_current s r now current

  -- After the removal of a stale record.
  unfoldable pub reserve_again : Store → IdempotencyRecord → ℕ → Inserted → Store × Reserved
  unfolding reserve_found
  reserve_again s r now inserted = (s, owned r)
  reserve_again s r now (insert_failed e) = (s, reserve_error (storage e))
  reserve_again s r now duplicate_key = reserve_found s r now (find s r.key now)

  unfoldable pub reserve_removed : Store → IdempotencyRecord → ℕ → Reply ℕ → Store × Reserved
  unfolding reserve_again
  reserve_removed s r now (failed e) = (s, reserve_error (storage e))
  reserve_removed s r now (ok n) =
      let (s', done) = insert_one s r in
      let again = reserve_again s' r now done in
      if n == 1 then again else (s, reserve_error not_found)

  unfoldable pub reserve_taken : Store → IdempotencyRecord → ℕ → Found → Store × Reserved
  unfolding reserve_removed reserve_found remove_stale
  reserve_taken s r now (find_error not_found) =
      let (s', n) = remove_stale s r.key now in reserve_removed s' r now n
  reserve_taken s r now (find_error (domain e)) = (s, reserve_error (domain e))
  reserve_taken s r now (find_error (storage e)) = (s, reserve_error (storage e))
  reserve_taken s r now (found current) = reserve_current s r now current

  unfoldable pub reserve_inserted : Store → IdempotencyRecord → ℕ → Inserted → Store × Reserved
  unfolding reserve_taken find
  reserve_inserted s r now inserted = (s, owned r)
  reserve_inserted s r now (insert_failed e) = (s, reserve_error (storage e))
  reserve_inserted s r now duplicate_key = reserve_taken s r now (find s r.key now)

  -- `Reserve` of a record; `clock` is the mapper's reading.
  unfoldable pub reserve : Store → IdempotencyRecord → ℕ → ℕ → Store × Reserved
  unfolding reserve_inserted
  reserve s given now clock =
      let r = or_pending given in
      let (s', done) = insert_one s r in
      let rest = reserve_inserted s' r now done in
      if str_eq r.reservation_id "" || r.lease_until == 0
      then (s, reserve_error (domain invalid_idempotency))
      else elim (validate_record r now).1 [
        | some e ↦ (s, reserve_error (domain e))
        | none ↦ elim (validate_record r clock).1 [
          | some e ↦ (s, reserve_error (domain e))
          | none ↦ rest
        ]
      ]

  abbrev pub matched : Error → Reply ℕ → Option RepositoryError
  matched e (failed n) = some (storage n)
  matched e (ok n) = if n == 0 then some (domain e) else none

  abbrev pub reply_error : Reply ℕ → Option RepositoryError
  reply_error (failed e) = some (storage e)
  reply_error (ok n) = none

  unfoldable pub complete : Store → String → String → String → ℕ → Store × Option RepositoryError
  complete s key reservation_id response now =
      let (s', reply) = update_one s key (is_held_live reservation_id now) (finish response) in
      (s', matched idempotency_conflict reply)

  unfoldable pub release : Store → String → String → Store × Option RepositoryError
  release s key reservation_id =
      let (s', reply) = delete_one s key (is_held reservation_id) in (s', reply_error reply)

  unfoldable pub renew : Store → String → String → ℕ → ℕ → Store × Option RepositoryError
  renew s key reservation_id lease_until now =
      let (s', reply) = update_one s key (is_held_live reservation_id now) (extend lease_until) in
      if str_eq key "" || (str_eq reservation_id "" || not (ltb now lease_until))
      then (s, some (domain invalid_idempotency))
      else (s', matched idempotency_lease_lost reply)

  unfoldable pub recover_expired : Store → ℕ → Store × Reply ℕ
  recover_expired s now = delete_many s (is_abandoned now)
