-- ===== src/Usercenter/Domain/Examples.antt =====
-- Runs of services/usercenter/domain.
use game01_server.Prelude.{◌≡◌, refl, true, false, none}
use game01_server.Usercenter.Domain.{
  RefreshToken, validate_token, is_usable, revoke, IdempotencyRecord, unset, validate_record,
}
use game01_server.Usercenter.Domain.Laws.{revoke_lem}

abbrev token : RefreshToken
token = record {
  id = "1";
  account_id = "ann";
  token_hash = "h";
  install_id = "phone";
  created_at = 10;
  expires_at = 100;
  revoked_at = none;
}

revoke_lem_example :
    (is_usable (revoke token 20).0 30 "phone" ≡ false)
    × (revoke (revoke token 20).0 30 ≡ revoke token 20)
revoke_lem_example = revoke_lem token 20 30 "phone"

usable : is_usable token 50 "phone" ≡ true
unfolding is_usable validate_token
usable = refl

abbrev command : IdempotencyRecord
command = record {
  key = "k";
  operation = "login";
  account_id = "ann";
  request_hash = "r";
  response = "";
  state = unset;
  reservation_id = "";
  lease_until = 0;
  created_at = 10;
  expires_at = 100;
}

accepted : (validate_record command 50).1 ≡ none
unfolding validate_record
accepted = refl
