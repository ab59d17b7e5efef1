-- ===== src/Lobby/Domain.antt =====
-- services/lobby/domain. A time is a number of time units, and 0 is the zero time. `ProfileVersion` and `AssetVersion` are
-- natural numbers.
use game01_server.Prelude.{ℕ, Bool, true, false, ◌||◌, Option, none, some, String}
use game01_server.Prelude.Tests.{leb, ◌==◌, if◌then◌else◌}
use game01_server.Prelude.Eq.{str_eq, string_eq}
use game01_server.Prelude.Maps.{Map, get}
use game01_server.Prelude.Int.{ℤ, pos, eqb_ℤ}

-- The errors of the domain; `duplicate` is the driver's error for a unique field, `driver` another one of the driver,
-- `linking` one of the user centre's linker, and `rejected` one that a handler makes itself.
pub data LobbyError : Type 0 where
  player_not_found asset_not_found invalid_player invalid_settlement duplicate : LobbyError
  settlement_not_found settlement_applied settlement_conflict insufficient_currency : LobbyError
  driver linking : ℕ → LobbyError
  rejected : LobbyError

-- The tests of `errors.Is`.
abbrev pub is_settlement_not_found : LobbyError → Bool
is_settlement_not_found settlement_not_found = true
is_settlement_not_found _ = false

abbrev pub is_settlement_applied : LobbyError → Bool
is_settlement_applied settlement_applied = true
is_settlement_applied _ = false

pub record Assets : Type 0 where
  pub player_id : String
  pub currency : Map String ℤ
  pub asset_version : ℕ
  pub updated_at : ℕ

-- An absent currency has the balance 0.
abbrev pub or_zero : Option ℤ → ℤ
or_zero none = pos 0
or_zero (some b) = b

unfoldable pub balance : Assets → String → ℤ
balance a asset_type = or_zero (get a.currency asset_type)

pub record Player : Type 0 where
  pub id : String
  pub account_id : String
  pub nickname : String
  pub avatar : String
  pub region : String
  pub is_default : Bool
  pub profile_version : ℕ
  pub created_at : ℕ
  pub updated_at : ℕ

unfoldable pub validate_player : Player → Option LobbyError
validate_player p =
    if str_eq p.id ""
      || (str_eq p.account_id ""
          || (str_eq p.nickname ""
              || (str_eq p.region "" || (p.created_at == 0 || p.updated_at == 0))))
    then some invalid_player
    else none

pub record Settlement : Type 0 where
  pub id : String
  pub player_id : String
  pub asset_type : String
  pub delta : ℤ
  pub reason : String
  pub source : String
  pub created_at : ℕ

unfoldable pub validate_settlement : Settlement → Option LobbyError
validate_settlement s =
    if str_eq s.id ""
      || (str_eq s.player_id ""
          || (str_eq s.asset_type ""
              || (eqb_ℤ s.delta (pos 0)
                  || (str_eq s.reason "" || (str_eq s.source "" || s.created_at == 0)))))
    then some invalid_settlement
    else none

pub record Snapshot : Type 0 where
  pub player : Player
  pub assets : Assets
  pub schema_version : ℕ
  pub created_at : ℕ

unfoldable pub state_version : Snapshot → ℕ
state_version s =
    if leb s.assets.asset_version s.player.profile_version
    then s.player.profile_version
    else s.assets.asset_version
