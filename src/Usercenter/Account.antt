-- ===== src/Usercenter/Account.antt =====
-- services/usercenter/domain/account.go and identity.go. A provider is its text, and the receivers are not nil.
pub mod Valid
mod Examples
use Prim.Native.String.{◌++◌}
use game01_server.Prelude.{
  ℕ, Bool, true, false, not, ◌&&◌, ◌||◌, Option, none, some, List, [], ◌∷◌, String,
}
use game01_server.Prelude.Tests.{if◌then◌else◌}
use game01_server.Prelude.Eq.{str_eq}
use game01_server.Prelude.Maps.{is_some}
use game01_server.Usercenter.Domain.{Error, invalid_account, invalid_identity, player_linked}

pub record Identity : Type 0 where
  pub id : String
  pub account_id : String
  pub provider : String
  pub subject : String
  pub password_hash : String
  pub linked_at : ℕ

unfoldable pub validate_identity : Identity → Option Error
validate_identity i =
    if str_eq i.provider "" || str_eq i.subject ""
    then some invalid_identity
    else (if str_eq i.provider "password" && str_eq i.password_hash ""
        then some invalid_identity
        else none)

pub record Account : Type 0 where
  pub id : String
  pub identities : List Identity
  pub player_ids : List String
  pub created_at : ℕ
  pub updated_at : ℕ

-- Membership in the set of the keys that have been seen.
unfoldable pub member : List String → String → Bool
member [] k = false
member (x ∷ xs) k = str_eq x k || member xs k

unfoldable pub identity_key : Identity → String
identity_key i = i.provider ++ ("\0" ++ i.subject)

unfoldable pub validate_identities : List String → List Identity → Option Error
unfolding member
validate_identities keys [] = none
validate_identities keys (i ∷ rest) =
    let later = validate_identities (identity_key i ∷ keys) rest in
    elim (validate_identity i) [
      | some e ↦ some e
      | none ↦ if member keys (identity_key i) then some invalid_account else later
    ]

unfoldable pub validate_players : List String → List String → Option Error
unfolding member
validate_players seen [] = none
validate_players seen (p ∷ rest) =
    let later = validate_players (p ∷ seen) rest in
    if str_eq p ""
    then some invalid_account
    else (if member seen p then some invalid_account else later)

unfoldable pub validate_account : Account → Option Error
unfolding validate_identities validate_players
validate_account a =
    if str_eq a.id "" then some invalid_account else elim (validate_identities [] a.identities) [
      | some e ↦ some e
      | none ↦ validate_players [] a.player_ids
    ]

unfoldable pub find_identity : List Identity → String → String → Option Identity
find_identity [] provider subject = none
find_identity (i ∷ rest) provider subject =
    let later = find_identity rest provider subject in
    if str_eq i.provider provider && str_eq i.subject subject then some i else later

unfoldable pub append : {A : Type 0} → List A → A → List A
append [] x = x ∷ []
append (y ∷ ys) x = y ∷ append ys x

unfoldable pub add_identity : Account → Identity → Account × Option Error
unfolding find_identity append
add_identity a i =
    if is_some (validate_identity i)
    then (a, some invalid_identity)
    else (if is_some (find_identity a.identities i.provider i.subject)
        then (a, some invalid_identity)
        else (record a { identities = append a.identities (record i { account_id = a.id }) }, none))

unfoldable pub has_player : Account → String → Bool
unfolding member
has_player a p = not (str_eq p "") && member a.player_ids p

unfoldable pub link_player : Account → String → ℕ → Account × Option Error
unfolding has_player append
link_player a p now =
    if str_eq a.id "" || str_eq p ""
    then (a, some invalid_account)
    else (if has_player a p
        then (a, some player_linked)
        else (record a { player_ids = append a.player_ids p; updated_at = now }, none))
