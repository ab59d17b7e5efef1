-- ===== src/Lobby/PlayerComponent.antt =====
-- services/lobby/components/player_component.go: the handlers of the lobby. A request is what `proto.Unmarshal` makes of the
-- payload, `none` where that fails; a clock reading is an argument; the message ids of the answers are left out. `LinkPlayer`,
-- the generator of identities and the encoder of a snapshot are parameters.
pub mod Execution
pub mod Settlements
pub mod Repeats
pub mod Solvency
pub mod Players
pub mod DefaultPlayer
pub mod Restore
mod Examples
use game01_server.Prelude.{
  ℕ, Bool, true, false, not, ◌&&◌, ◌||◌, Option, none, some, List, [], ◌∷◌, String,
}
use game01_server.Prelude.Tests.{leb, ◌==◌, if◌then◌else◌}
use game01_server.Prelude.Eq.{str_eq}
use game01_server.Prelude.Int.{ℤ, pos, eqb_ℤ}
use game01_server.Storage.{Collection}
use game01_server.Storage.UnitOfWork.{SessionFactory, execute}
use game01_server.Lobby.Domain.{
  LobbyError, player_not_found, invalid_settlement, settlement_not_found, settlement_applied,
  settlement_conflict, is_settlement_not_found, is_settlement_applied, driver, linking, rejected,
  Assets, balance, Player, Settlement, Snapshot, state_version,
}
use game01_server.Lobby.Repositories.{
  Outcome, done, error, create_player, find_default_by_account_id, find_by_id, create_assets,
  find_assets, apply_delta, create_settlement, find_by_settlement_id, SnapshotDocument,
  find_snapshot, save_snapshot,
}

-- The four collections, and their contents.
pub record Database : Type 1 where
  pub players : Collection Player
  pub assets : Collection Assets
  pub ledger : Collection Settlement
  pub snapshots : Collection SnapshotDocument

pub record World (db : Database) : Type 0 where
  pub players : db.players.Store
  pub assets : db.assets.Store
  pub ledger : db.ledger.Store
  pub snapshots : db.snapshots.Store

pub record SettlementRequest : Type 0 where
  pub settlement_id : String
  pub player_id : String
  pub asset_type : String
  pub delta : ℤ
  pub reason : String
  pub source : String

pub record SettlementResponse : Type 0 where
  pub settlement_id : String
  pub player_id : String
  pub asset_type : String
  pub balance : ℤ
  pub asset_version : ℕ
  pub replayed : Bool

abbrev pub is_incomplete : SettlementRequest → Bool
is_incomplete r =
    str_eq r.settlement_id ""
    || (str_eq r.player_id ""
        || (str_eq r.asset_type ""
            || (eqb_ℤ r.delta (pos 0) || (str_eq r.reason "" || str_eq r.source ""))))

abbrev pub requested : SettlementRequest → ℕ → Settlement
requested r now = record {
  id = r.settlement_id;
  player_id = r.player_id;
  asset_type = r.asset_type;
  delta = r.delta;
  reason = r.reason;
  source = r.source;
  created_at = now;
}

abbrev pub conflicts : Settlement → Settlement → Bool
conflicts existing t =
    not (str_eq existing.player_id t.player_id)
    || (not (str_eq existing.asset_type t.asset_type)
        || (not (eqb_ℤ existing.delta t.delta)
            || (not (str_eq existing.reason t.reason) || not (str_eq existing.source t.source))))

module _ (db : Database) where
  -- `unitOfWork`, which may be nil.
  abbrev pub UnitOfWork : Type 0
  UnitOfWork = Option (SessionFactory (World db) LobbyError)

  abbrev pub in_unit :
      UnitOfWork
      → World db
      → (World db → World db × Option LobbyError)
      → World db × Option LobbyError
  in_unit none w f = f w
  in_unit (some sessions) w f = execute driver sessions w f

  abbrev pub balance_response : Settlement → Bool → Outcome Assets → Outcome SettlementResponse
  balance_response t replayed (error e) = error e
  balance_response t replayed (done a) = done (record {
    settlement_id = t.id;
    player_id = t.player_id;
    asset_type = t.asset_type;
    balance = balance a t.asset_type;
    asset_version = a.asset_version;
    replayed = replayed;
  })

  unfoldable pub settlement_result : World db → Settlement → Bool → Outcome SettlementResponse
  settlement_result w t replayed =
      balance_response t replayed (find_assets db.assets w.assets t.player_id)

  unfoldable pub replay_settlement : World db → String → Outcome SettlementResponse
  unfolding settlement_result
  replay_settlement w id = elim (find_by_settlement_id db.ledger w.ledger id) [
    | error e ↦ error e
    | done t ↦ settlement_result w t true
  ]

  -- The steps of `execute`, each with those that follow it.
  unfoldable pub execute_snapshot :
      World db → Settlement → ℕ → Outcome Assets → World db × Option LobbyError
  execute_snapshot w t now (error e) = (w, some e)
  execute_snapshot w t now (done assets) = elim (find_by_id db.players w.players t.player_id) [
    | error e ↦ (w, some e)
    | done player ↦
        let (snapshots, failure) =
          save_snapshot db.snapshots w.snapshots
            (record { player = player; assets = assets; schema_version = 1; created_at = now }) in
        (record w { snapshots = snapshots }, failure)
  ]

  unfoldable pub execute_delta :
      World db → Settlement → ℕ → Option LobbyError → World db × Option LobbyError
  unfolding execute_snapshot
  execute_delta w t now (some e) = (w, some e)
  execute_delta w t now none =
      let (assets, applied) = apply_delta db.assets w.assets t.player_id t.asset_type t.delta now in
      execute_snapshot (record w { assets = assets }) t now applied

  unfoldable pub execute_settlement : Settlement → ℕ → World db → World db × Option LobbyError
  unfolding execute_delta
  execute_settlement t now w =
      let (ledger, created) = create_settlement db.ledger w.ledger t in
      execute_delta (record w { ledger = ledger }) t now created

  abbrev pub settled : World db → Settlement → Option LobbyError → Outcome SettlementResponse
  settled w t none = settlement_result w t false
  settled w t (some e) = if is_settlement_applied e then replay_settlement w t.id else error e

  unfoldable pub settle :
      UnitOfWork
      → World db
      → Settlement
      → ℕ
      → Outcome Settlement
      → World db × Outcome SettlementResponse
  unfolding settlement_result replay_settlement execute_settlement
  settle unit w t now (done existing) = (
    w,
    if conflicts existing t then error settlement_conflict else settlement_result w existing true,
  )
  settle unit w t now (error e) =
      let (w', failure) = in_unit unit w (execute_settlement t now) in
      if is_settlement_not_found e then (w', settled w' t failure) else (w, error e)

  unfoldable pub settlement :
      UnitOfWork
      → World db
      → Option SettlementRequest
      → ℕ
      → ℕ
      → World db × Outcome SettlementResponse
  unfolding settle
  settlement unit w none created_at now = (w, error invalid_settlement)
  settlement unit w (some r) created_at now =
      let t = requested r created_at in
      let answer = settle unit w t now (find_by_settlement_id db.ledger w.ledger t.id) in
      if is_incomplete r then (w, error invalid_settlement) else answer
