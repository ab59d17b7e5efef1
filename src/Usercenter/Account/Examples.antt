-- ===== src/Usercenter/Account/Examples.antt =====
-- A concrete account of services/usercenter/domain/account.go.
use game01_server.Prelude.{◌≡◌, refl, none, [], ◌∷◌, arith}
use game01_server.Prelude.Eq.{eq_iff}
use game01_server.Usercenter.Account.{
  Identity, validate_identity, Account, member, identity_key, validate_identities, validate_players,
  validate_account, add_identity,
}
use game01_server.Usercenter.Account.Valid.{add_identity_valid}

abbrev guest : Identity
guest = record {
  id = "n1";
  account_id = "a1";
  provider = "guest";
  subject = "i1";
  password_hash = "";
  linked_at = 3;
}

abbrev steam : Identity
steam = record guest { id = "n2"; provider = "steam"; subject = "s1" }

abbrev account : Account
account = record {
  id = "a1";
  identities = guest ∷ [];
  player_ids = "p1" ∷ [];
  created_at = 3;
  updated_at = 3;
}

add_identity_valid_example : validate_account (add_identity account steam).0 ≡ none
unfolding validate_account validate_identities validate_players validate_identity identity_key
    member
add_identity_valid_example =
    add_identity_valid account steam refl
      (λ e. absurd (ground (arith, (eq_iff (identity_key guest) (identity_key steam)).1 e)), tt)
