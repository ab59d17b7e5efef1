-- ===== src/Usercenter/TokenRepository.antt =====
-- services/usercenter/repository/mongo/refresh_token_repository.go, with the document of mapper.go, on a collection with the
-- unique field `id`. A document has the fields of the token, and a field that is not set is null. Neither the repository nor
-- its collection is nil; the mapper's clock reading is the argument `clock`.
pub mod Rotation
pub mod Once
mod Examples
use game01_server.Prelude.{ℕ, Bool, true, false, not, ◌&&◌, ◌||◌, Option, none, some, String}
use game01_server.Prelude.Tests.{ltb, ◌==◌, if◌then◌else◌}
use game01_server.Prelude.Eq.{str_eq}
use game01_server.Prelude.Maps.{is_some}
use game01_server.Storage.{
  Reply, ok, failed, Inserted, inserted, duplicate_key, insert_failed, Collection,
}
use game01_server.Storage.UnitOfWork.{SessionFactory, execute}
use game01_server.Usercenter.Domain.{Error, invalid_token, RefreshToken}

pub data TokenError : Type 0 where
  rejected : Error → TokenError
  duplicate transaction_required : TokenError
  driver : ℕ → TokenError

pub data FoundToken : Type 0 where
  token_found : RefreshToken → FoundToken
  token_error : TokenError → FoundToken

-- The error of `refreshTokenDocumentFromDomain`.
unfoldable pub document_error : RefreshToken → ℕ → Option TokenError
document_error t clock =
    if str_eq t.account_id ""
      || (str_eq t.token_hash "" || (str_eq t.install_id "" || t.expires_at == 0))
    then some (rejected invalid_token)
    else (if not (is_some t.revoked_at) && not (ltb clock t.expires_at)
        then some (rejected invalid_token)
        else none)

abbrev pub insert_error : Inserted → Option TokenError
insert_error inserted = none
insert_error duplicate_key = some duplicate
insert_error (insert_failed e) = some (driver e)

-- The filters and the update.
abbrev pub is_valid : String → ℕ → RefreshToken → Bool
is_valid token_hash now d =
    str_eq d.token_hash token_hash && (not (is_some d.revoked_at) && ltb now d.expires_at)

abbrev pub is_unrevoked : RefreshToken → Bool
is_unrevoked d = not (is_some d.revoked_at)

abbrev pub is_rotatable : ℕ → RefreshToken → Bool
is_rotatable now d = not (is_some d.revoked_at) && ltb now d.expires_at

abbrev pub revoked : ℕ → RefreshToken → RefreshToken
revoked now d = record d { revoked_at = some now }

abbrev pub found_token : Reply (Option RefreshToken) → FoundToken
found_token (failed e) = token_error (driver e)
found_token (ok none) = token_error (rejected invalid_token)
found_token (ok (some d)) = token_found d

abbrev revoke_error : Reply ℕ → Option TokenError
revoke_error (failed e) = some (driver e)
revoke_error (ok n) = if n == 0 then some (rejected invalid_token) else none

module _ (c : Collection RefreshToken) where
  unfoldable pub create_token : c.Store → RefreshToken → ℕ → c.Store × Option TokenError
  create_token s t clock =
      let (s', answer) = c.insert_one s t in
      elim (document_error t clock) [ some e ↦ (s, some e) | none ↦ (s', insert_error answer) ]

  unfoldable pub find_valid : c.Store → String → ℕ → FoundToken
  find_valid s token_hash now =
      if str_eq token_hash ""
      then token_error (rejected invalid_token)
      else found_token (c.find_where s (is_valid token_hash now))

  unfoldable pub revoke_token : c.Store → String → ℕ → c.Store × Option TokenError
  revoke_token s token_id now =
      let (s', reply) = c.update_one s token_id is_unrevoked (revoked now) in
      (s', revoke_error reply)

  -- The callback of `Rotate`, from the reply to its update on.
  unfoldable pub rotate_reply : RefreshToken → c.Store → Reply ℕ → c.Store × Option TokenError
  rotate_reply replacement s (failed e) = (s, some (driver e))
  rotate_reply replacement s (ok n) =
      let (s', answer) = c.insert_one s replacement in
      if n == 1 then (s', insert_error answer) else (s, some (rejected invalid_token))

  unfoldable pub rotate_callback : String → ℕ → RefreshToken → c.Store → c.Store × Option TokenError
  unfolding rotate_reply
  rotate_callback token_id now replacement s =
      let (s', reply) = c.update_one s token_id (is_rotatable now) (revoked now) in
      rotate_reply replacement s' reply

  unfoldable pub rotate :
      Option (SessionFactory c.Store TokenError)
      → c.Store
      → String
      → ℕ
      → RefreshToken
      → ℕ
      → c.Store × Option TokenError
  unfolding rotate_callback
  rotate none s token_id now replacement clock = (s, some transaction_required)
  rotate (some sessions) s token_id now replacement clock =
      let rotated = execute driver sessions s (rotate_callback token_id now replacement) in
      if str_eq token_id ""
      then (s, some (rejected invalid_token))
      else elim (document_error replacement clock) [ some e ↦ (s, some e) | none ↦ rotated ]
