-- ===== src/Gateway/Session.antt =====
-- services/gateway/session/session.go: the record of a session and the store in memory. A time and a duration
-- are numbers of nanoseconds.
pub mod Laws
use game01_server.Prelude.{
  ℕ, Bool, true, false, not, ◌&&◌, Option, none, some, List, [], ◌∷◌, String,
}
use game01_server.Prelude.Tests.{◌==◌, if◌then◌else◌}
use game01_server.Prelude.Eq.{string_eq, str_eq}
use game01_server.Prelude.Maps.{Map, get, put, del, has}

pub data Error : Type 0 where
  not_found invalid_token session_expiry session_conflict already_exists no_random : Error

-- `no_state` is the empty string of a zero `Record`.
pub data State : Type 0 where
  no_state authenticated active reconnecting expired : State

pub record Record : Type 0 where
  pub session_id : String
  pub account_id : String
  pub player_id : String
  pub gateway_instance_id : String
  pub connection_id : String
  pub connection_epoch : ℕ  -- uint64
  pub state : State
  pub resume_token_hash : String
  pub expire_at : ℕ

abbrev pub state_number : State → ℕ
state_number no_state = 0
state_number authenticated = 1
state_number active = 2
state_number reconnecting = 3
state_number expired = 4

-- `reflect.DeepEqual` of two records.
unfoldable pub record_eq : Record → Record → Bool
record_eq a b =
    str_eq a.session_id b.session_id
    && (str_eq a.account_id b.account_id
        && (str_eq a.player_id b.player_id
            && (str_eq a.gateway_instance_id b.gateway_instance_id
                && (str_eq a.connection_id b.connection_id
                    && (a.connection_epoch == b.connection_epoch
                        && (state_number a.state == state_number b.state
                            && (str_eq a.resume_token_hash b.resume_token_hash
                                && a.expire_at == b.expire_at)))))))

abbrev pub Store : Type 0
Store = Map String Record

unfoldable pub store_create : Store → Record → Store × Option Error
store_create s r =
    if has s r.session_id then (s, some already_exists) else (put s r.session_id r, none)

-- The other session that the account has a connection of, if there is one.
unfoldable pub claim_account : Store → String → Record → Option Record
claim_account [] account_id r = none
claim_account ((id, candidate) ∷ rest) account_id r =
    let later = claim_account rest account_id r in
    if not (str_eq candidate.session_id r.session_id)
      && (str_eq candidate.account_id account_id && not (str_eq candidate.connection_id ""))
    then some candidate
    else later

-- The body of the loop of `ReleaseAccount`.
unfoldable pub released : String → String → Record → Record
released account_id connection_id candidate =
    if str_eq candidate.account_id account_id && str_eq candidate.connection_id connection_id
    then record candidate { connection_id = "" }
    else candidate

unfoldable pub release_account : Store → String → String → Store
release_account [] account_id connection_id = []
release_account ((id, candidate) ∷ rest) account_id connection_id =
    (id, released account_id connection_id candidate)
    ∷ release_account rest account_id connection_id

unfoldable pub store_save : Store → Record → Store × Option Error
store_save s r = if has s r.session_id then (put s r.session_id r, none) else (s, some not_found)

-- `none` stands for `ErrNotFound`.
unfoldable pub compare_and_swap : Store → Record → Record → Store × Option Bool
compare_and_swap s expected updated = elim (get s expected.session_id) [
  | none ↦ (s, none)
  | some current ↦
      if record_eq current expected
      then (put s updated.session_id updated, some true)
      else (s, some false)
]
