-- ===== src/Lobby/PlayerComponent/Restore.antt =====
-- `restore` of services/lobby/components/player_component.go, with the message of services/lobby/components/restore_codec.go.
-- The encoder of the message is a parameter, and a payload is a string; the fields of the answer that are the same in every
-- answer are left out.
use game01_server.Prelude.{
  ℕ, ◌≡◌, ◌∙◌, refl, sym, ap, Bool, true, false, Option, none, some, String, arith,
}
use game01_server.Prelude.Tests.{◌==◌, if◌then◌else◌}
use game01_server.Prelude.Eq.{str_eq}
use game01_server.Prelude.Maps.{Map}
use game01_server.Prelude.Int.{ℤ}
use game01_server.Storage.{Reply, ok, failed, keep, IsLawful}
use game01_server.Lobby.Domain.{
  LobbyError, player_not_found, rejected, Assets, Player, Snapshot, state_version,
}
use game01_server.Lobby.Repositories.{
  Outcome, done, error, every, read_one, in_snapshot, reply_error, find_by_id, find_assets,
  SnapshotDocument, snapshot_document, snapshot_of, find_snapshot, save_snapshot,
}
use game01_server.Lobby.Repositories.Laws.{done_injective}
use game01_server.Lobby.PlayerComponent.{Database, World}

pub record RestoreRequest : Type 0 where
  pub player_id : String
  pub last_state_version : ℕ

pub data RestoreMode : Type 0 where
  full noop : RestoreMode

pub data PayloadType : Type 0 where
  unspecified lobby_snapshot : PayloadType

pub record RestoreResponse : Type 0 where
  pub player_id : String
  pub state_version : ℕ
  pub snapshot : String
  pub mode : RestoreMode
  pub base_state_version : ℕ
  pub payload_type : PayloadType

-- What `MarshalStateSnapshot` encodes.
pub record LobbyStateSnapshot : Type 0 where
  pub player_id : String
  pub account_id : String
  pub nickname : String
  pub region : String
  pub profile_version : ℕ
  pub asset_version : ℕ
  pub currency : Map String ℤ

unfoldable pub state_message : Snapshot → LobbyStateSnapshot
state_message s = record {
  player_id = s.player.id;
  account_id = s.player.account_id;
  nickname = s.player.nickname;
  region = s.player.region;
  profile_version = s.player.profile_version;
  asset_version = s.assets.asset_version;
  currency = s.assets.currency;
}

abbrev pub is_missing : LobbyError → Bool
is_missing player_not_found = true
is_missing _ = false

unfoldable pub payload_type : RestoreMode → PayloadType
payload_type noop = unspecified
payload_type full = lobby_snapshot

module _ (marshal : LobbyStateSnapshot → Outcome String) where
  abbrev full_response : RestoreRequest → Snapshot → Outcome String → Outcome RestoreResponse
  full_response r s (error e) = error e
  full_response r s (done payload) = done (record {
    player_id = r.player_id;
    state_version = state_version s;
    snapshot = payload;
    mode = full;
    base_state_version = 0;
    payload_type = payload_type full;
  })

  unfoldable pub restore_response : RestoreRequest → Snapshot → Outcome RestoreResponse
  restore_response r s =
      if r.last_state_version == state_version s
      then done (record {
        player_id = r.player_id;
        state_version = state_version s;
        snapshot = "";
        mode = noop;
        base_state_version = r.last_state_version;
        payload_type = payload_type noop;
      })
      else full_response r s (marshal (state_message s))

  module _ (db : Database) where
    -- The snapshot that is made where there is none; a failure to save it is passed over.
    abbrev rebuilt :
        World db
        → RestoreRequest
        → ℕ
        → Outcome Player
        → Outcome Assets
        → World db × Outcome Snapshot
    rebuilt w r now (error e) assets = (w, error e)
    rebuilt w r now (done player) (error e) = (w, error e)
    rebuilt w r now (done player) (done assets) =
        let s : Snapshot = record {
          player = player;
          assets = assets;
          schema_version = 1;
          created_at = now;
        } in
        (record w { snapshots = (save_snapshot db.snapshots w.snapshots s).0 }, done s)

    unfoldable pub load_snapshot :
        World db → RestoreRequest → ℕ → Outcome Snapshot → World db × Outcome Snapshot
    load_snapshot w r now (done s) = (w, done s)
    load_snapshot w r now (error e) =
        let made =
          rebuilt w r now (find_by_id db.players w.players r.player_id)
            (find_assets db.assets w.assets r.player_id) in
        if is_missing e then made else (w, error e)

    abbrev respond : RestoreRequest → Outcome Snapshot → Outcome RestoreResponse
    respond r (error e) = error e
    respond r (done s) = restore_response r s

    unfoldable pub restore :
        World db → Option RestoreRequest → ℕ → World db × Outcome RestoreResponse
    unfolding load_snapshot restore_response
    restore w none now = (w, error rejected)
    restore w (some r) now =
        let (w', loaded) =
          load_snapshot w r now (find_snapshot db.snapshots w.snapshots r.player_id) in
        if str_eq r.player_id "" then (w, error rejected) else (w', respond r loaded)

    module _ (law : IsLawful db.snapshots (λ d. d.player_id)) where
      document_at :
          {s : db.snapshots.Store} (x : Snapshot) (o : Option SnapshotDocument)
          → law.document s (snapshot_document x).player_id ≡ o
          → law.document s x.player.id ≡ o
      unfolding snapshot_document
      document_at x o h = h

      as_document :
          (x y : Snapshot)
          → snapshot_of (snapshot_document x) ≡ y
          → (state_message y ≡ state_message x) × (state_version y ≡ state_version x)
      unfolding snapshot_of snapshot_document state_message state_version
      as_document x y h = (sym (ap state_message h), sym (ap state_version h))

      -- A snapshot that was saved and is found again gives the client the same message and the same version, although its
      -- document leaves out fields of the player.
      pub save_snapshot-find_snapshot :
          (s : db.snapshots.Store) (x y : Snapshot)
          → (save_snapshot db.snapshots s x).1 ≡ none
          → find_snapshot db.snapshots (save_snapshot db.snapshots s x).0 x.player.id ≡ done y
          → (state_message y ≡ state_message x) × (state_version y ≡ state_version x)
      unfolding save_snapshot find_snapshot
      save_snapshot-find_snapshot s x y saved found =
          as_document x y (by_read (db.snapshots.find_one s' x.player.id every) refl found)
        where
          s' : db.snapshots.Store
          s' = (db.snapshots.replace_one s (snapshot_document x)).0

          written :
              (reply : Reply ℕ)
              → (db.snapshots.replace_one s (snapshot_document x)).1 ≡ reply
              → reply_error reply ≡ none
              → law.document s' x.player.id ≡ some (snapshot_document x)
          written (ok n) h e = document_at x _ (law.replace_ok s (snapshot_document x) n h)
          written (failed n) h e = absurd (ground (arith, e))

          by_read :
              (reply : Reply (Option SnapshotDocument))
              → db.snapshots.find_one s' x.player.id every ≡ reply
              → in_snapshot (read_one player_not_found reply) ≡ done y
              → snapshot_of (snapshot_document x) ≡ y
          by_read (failed n) h e = absurd (ground (arith, e))
          by_read (ok o) h e = done_injective _ y (
              ap (λ u. in_snapshot (read_one player_not_found (ok u)))
                (sym
                  (law.find_ok s' x.player.id every o h ∙ ap (keep every) (written _ refl saved)))
              ∙ e)
