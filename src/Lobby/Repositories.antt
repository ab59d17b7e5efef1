-- ===== src/Lobby/Repositories.antt =====
-- services/lobby/repository/mongo: the collections of the lobby and their repositories. A document has the fields of the
-- domain's record, the snapshot's has a part of them; a map of currencies is copied, which a value needs not. An asset type
-- is the name of a field, without dots. No collection is nil.
pub mod Laws
use game01_server.Prelude.{ℕ, zero, suc, ◌+◌, Bool, true, false, ◌&&◌, Option, none, some, String}
use game01_server.Prelude.Tests.{◌==◌, if◌then◌else◌}
use game01_server.Prelude.Eq.{str_eq, string_eq}
use game01_server.Prelude.Maps.{Map, get, put}
use game01_server.Prelude.Int.{ℤ, pos, negsuc, ◌+ℤ◌, ltb_ℤ, leb_ℤ, eqb_ℤ}
use game01_server.Storage.{
  Reply, ok, failed, Inserted, inserted, duplicate_key, insert_failed, Collection,
}
use game01_server.Lobby.Domain.{
  LobbyError, player_not_found, asset_not_found, settlement_not_found, settlement_applied,
  insufficient_currency, duplicate, driver, Assets, balance, Player, validate_player, Settlement,
  validate_settlement, Snapshot,
}

pub data Outcome {ℓ} (A : Type ℓ) : Type ℓ where
  done : A → Outcome A
  error : LobbyError → Outcome A

-- `every` stands for a filter by the unique field alone.
abbrev pub every : {D : Type 0} → D → Bool
every d = true

-- A read whose missing document is an error of the domain.
abbrev pub read_one {ℓ} : {A : Type ℓ} → LobbyError → Reply (Option A) → Outcome A
read_one missing (failed e) = error (driver e)
read_one missing (ok none) = error missing
read_one missing (ok (some d)) = done d

abbrev pub insert_error : LobbyError → Inserted → Option LobbyError
insert_error taken inserted = none
insert_error taken duplicate_key = some taken
insert_error taken (insert_failed e) = some (driver e)

module _ (c : Collection Player) where
  unfoldable pub create_player : c.Store → Player → c.Store × Option LobbyError
  create_player s p =
      let (s', answer) = c.insert_one s p in
      elim (validate_player p) [ some e ↦ (s, some e) | none ↦ (s', insert_error duplicate answer) ]

  unfoldable pub find_default_by_account_id : c.Store → String → Outcome Player
  find_default_by_account_id s account_id =
      read_one player_not_found
        (c.find_where s (λ p. str_eq p.account_id account_id && p.is_default))

  unfoldable pub find_by_id : c.Store → String → Outcome Player
  find_by_id s player_id = read_one player_not_found (c.find_one s player_id every)

-- `-delta` on int64: the least number is its own negation.
abbrev pub negate : ℤ → ℤ
negate (pos zero) = pos 0
negate (pos (suc n)) = negsuc n
negate (negsuc n) = if n == 9223372036854775807 then negsuc n else pos (suc n)

abbrev pub at_least : ℤ → Option ℤ → Bool
at_least low none = false
at_least low (some b) = leb_ℤ low b

-- The filter and the update of `ApplyDelta`.
abbrev pub is_covered : String → ℤ → Assets → Bool
is_covered asset_type delta a =
    if ltb_ℤ delta (pos 0) then at_least (negate delta) (get a.currency asset_type) else true

unfoldable pub credit : String → ℤ → ℕ → Assets → Assets
credit asset_type delta now a = record a {
  currency = put a.currency asset_type (balance a asset_type +ℤ delta);
  asset_version = a.asset_version + 1;
  updated_at = now;
}

module _ (c : Collection Assets) where
  unfoldable pub create_assets : c.Store → Assets → c.Store × Option LobbyError
  create_assets s a = let (s', answer) = c.insert_one s a in (s', insert_error duplicate answer)

  unfoldable pub find_assets : c.Store → String → Outcome Assets
  find_assets s player_id = read_one asset_not_found (c.find_one s player_id every)

  unfoldable pub apply_delta : c.Store → String → String → ℤ → ℕ → c.Store × Outcome Assets
  apply_delta s player_id asset_type delta now =
      let (s', reply) =
        c.find_one_and_update s player_id (is_covered asset_type delta)
          (credit asset_type delta now) in
      if eqb_ℤ delta (pos 0)
      then (s, find_assets s player_id)
      else (s', read_one insufficient_currency reply)

module _ (c : Collection Settlement) where
  unfoldable pub create_settlement : c.Store → Settlement → c.Store × Option LobbyError
  create_settlement s t =
      let (s', answer) = c.insert_one s t in
      elim (validate_settlement t) [
        | some e ↦ (s, some e)
        | none ↦ (s', insert_error settlement_applied answer)
      ]

  unfoldable pub find_by_settlement_id : c.Store → String → Outcome Settlement
  find_by_settlement_id s id = read_one settlement_not_found (c.find_one s id every)

pub record SnapshotDocument : Type 0 where
  pub player_id : String
  pub account_id : String
  pub nickname : String
  pub region : String
  pub profile_version : ℕ
  pub asset_version : ℕ
  pub currency : Map String ℤ
  pub schema_version : ℕ
  pub created_at : ℕ

unfoldable pub snapshot_document : Snapshot → SnapshotDocument
snapshot_document s = record {
  player_id = s.player.id;
  account_id = s.player.account_id;
  nickname = s.player.nickname;
  region = s.player.region;
  profile_version = s.player.profile_version;
  asset_version = s.assets.asset_version;
  currency = s.assets.currency;
  schema_version = s.schema_version;
  created_at = s.created_at;
}

unfoldable pub snapshot_of : SnapshotDocument → Snapshot
snapshot_of d = record {
  player = record {
    id = d.player_id;
    account_id = d.account_id;
    nickname = d.nickname;
    avatar = "";
    region = d.region;
    is_default = false;
    profile_version = d.profile_version;
    created_at = 0;
    updated_at = 0;
  };
  assets = record {
    player_id = d.player_id;
    currency = d.currency;
    asset_version = d.asset_version;
    updated_at = 0;
  };
  schema_version = d.schema_version;
  created_at = d.created_at;
}

abbrev pub in_snapshot : Outcome SnapshotDocument → Outcome Snapshot
in_snapshot (error e) = error e
in_snapshot (done d) = done (snapshot_of d)

abbrev pub reply_error {ℓ} : {A : Type ℓ} → Reply A → Option LobbyError
reply_error (ok n) = none
reply_error (failed e) = some (driver e)

module _ (c : Collection SnapshotDocument) where
  unfoldable pub find_snapshot : c.Store → String → Outcome Snapshot
  find_snapshot s player_id = in_snapshot (read_one player_not_found (c.find_one s player_id every))

  unfoldable pub save_snapshot : c.Store → Snapshot → c.Store × Option LobbyError
  unfolding snapshot_document
  save_snapshot s snapshot =
      let (s', reply) = c.replace_one s (snapshot_document snapshot) in (s', reply_error reply)
