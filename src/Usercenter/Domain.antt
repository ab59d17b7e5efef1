-- ===== src/Usercenter/Domain.antt =====
-- services/usercenter/domain: the errors (errors.go), refresh tokens (refresh_token.go) and the records of idempotent commands
-- (idempotency.go). A time is a number of nanoseconds, with 0 for the zero `time.Time`; the receivers are not nil.
pub mod Laws
mod Examples
use game01_server.Prelude.{ℕ, Bool, true, false, not, ◌&&◌, ◌||◌, Option, none, some, String}
use game01_server.Prelude.Tests.{ltb, ◌==◌, if◌then◌else◌}
use game01_server.Prelude.Eq.{str_eq}
use game01_server.Prelude.Maps.{is_some}

pub data Error : Type 0 where
  account_not_found identity_not_found invalid_account invalid_identity invalid_token : Error
  player_linked invalid_idempotency idempotency_conflict idempotency_lease_lost : Error

pub record RefreshToken : Type 0 where
  pub id : String
  pub account_id : String
  pub token_hash : String
  pub install_id : String
  pub created_at : ℕ
  pub expires_at : ℕ
  pub revoked_at : Option ℕ

unfoldable pub validate_token : RefreshToken → ℕ → Option Error
validate_token t now =
    if str_eq t.account_id ""
      || (str_eq t.token_hash "" || (str_eq t.install_id "" || t.expires_at == 0))
    then some invalid_token
    else (if not (ltb now t.expires_at)
        then some invalid_token
        else (if is_some t.revoked_at then some invalid_token else none))

unfoldable pub is_usable : RefreshToken → ℕ → String → Bool
unfolding validate_token
is_usable t now install_id =
    not (str_eq install_id "")
    && (str_eq t.install_id install_id && not (is_some (validate_token t now)))

unfoldable pub revoke : RefreshToken → ℕ → RefreshToken × Option Error
revoke t now =
    if str_eq t.token_hash ""
    then (t, some invalid_token)
    else (if is_some t.revoked_at then (t, none) else (record t { revoked_at = some now }, none))

-- `unset` is the empty string, `unknown` any other text.
pub data IdempotencyState : Type 0 where
  unset pending completed : IdempotencyState
  unknown : String → IdempotencyState

-- The response's bytes are text.
pub record IdempotencyRecord : Type 0 where
  pub key : String
  pub operation : String
  pub account_id : String
  pub request_hash : String
  pub response : String
  pub state : IdempotencyState
  pub reservation_id : String
  pub lease_until : ℕ
  pub created_at : ℕ
  pub expires_at : ℕ

-- The state that `Validate` leaves in the record.
abbrev pub default_state : IdempotencyState → IdempotencyState
default_state unset = completed
default_state s = s

abbrev pub is_known : IdempotencyState → Bool
is_known pending = true
is_known completed = true
is_known _ = false

-- The record after the call, whose state `Validate` fills in.
unfoldable pub validate_record : IdempotencyRecord → ℕ → IdempotencyRecord × Option Error
validate_record r now =
    let r' = record r { state = default_state r.state } in
    if str_eq r.key "" || (str_eq r.operation "" || (str_eq r.request_hash "" || r.expires_at == 0))
    then (r, some invalid_idempotency)
    else (if not (is_known r'.state)
        then (r', some invalid_idempotency)
        else (if not (ltb now r.expires_at) then (r', some invalid_idempotency) else (r', none)))

abbrev pub completed_state : IdempotencyState → Bool
completed_state unset = true
completed_state completed = true
completed_state _ = false

unfoldable pub is_completed : IdempotencyRecord → Bool
is_completed r = completed_state r.state

unfoldable pub is_expired : IdempotencyRecord → ℕ → Bool
is_expired r now = not (ltb now r.expires_at)
