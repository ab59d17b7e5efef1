-- ===== src/Lobby/PlayerComponent/Players.antt =====
-- `ensurePlayer` and `restore` of services/lobby/components/player_component.go, with the message of
-- services/lobby/components/restore_codec.go.
use game01_server.Prelude.{ℕ, Bool, true, false, Option, none, some, [], ◌∷◌, String}
use game01_server.Prelude.Tests.{if◌then◌else◌}
use game01_server.Prelude.Eq.{str_eq}
use game01_server.Prelude.Text.{trim_space}
use game01_server.Prelude.Int.{pos}
use game01_server.Lobby.Domain.{LobbyError, player_not_found, linking, rejected, Assets, Player}
use game01_server.Lobby.Repositories.{
  Outcome, done, error, create_player, find_default_by_account_id, create_assets, save_snapshot,
}
use game01_server.Lobby.PlayerComponent.{Database, World, UnitOfWork, in_unit}

pub record EnsurePlayerResponse : Type 0 where
  pub account_id : String
  pub player_id : String
  pub created : Bool

abbrev pub new_player : String → String → ℕ → Player
new_player id account_id now = record {
  id = id;
  account_id = account_id;
  nickname = "Player";
  avatar = "";
  region = "global";
  is_default = true;
  profile_version = 1;
  created_at = now;
  updated_at = now;
}

abbrev pub initial_assets : String → ℕ → Assets
initial_assets id now = record {
  player_id = id;
  currency = ("gold", pos 0) ∷ (("diamond", pos 0) ∷ []);
  asset_version = 1;
  updated_at = now;
}

abbrev pub player_missing : LobbyError → Bool
player_missing player_not_found = true
player_missing _ = false

module _ (db : Database) where
  -- The steps of `create`, each with those that follow it.
  unfoldable pub create_snapshot :
      World db → Player → Assets → Option LobbyError → World db × Option LobbyError
  create_snapshot w player assets (some e) = (w, some e)
  create_snapshot w player assets none =
      let (snapshots, failure) = save_snapshot db.snapshots w.snapshots (record {
        player = player;
        assets = assets;
        schema_version = 1;
        created_at = player.created_at;
      }) in
      (record w { snapshots = snapshots }, failure)

  unfoldable pub create_account_assets :
      World db → Player → Assets → Option LobbyError → World db × Option LobbyError
  unfolding create_snapshot
  create_account_assets w player assets (some e) = (w, some e)
  create_account_assets w player assets none =
      let (stored, failure) = create_assets db.assets w.assets assets in
      create_snapshot (record w { assets = stored }) player assets failure

  unfoldable pub create_account : Player → Assets → World db → World db × Option LobbyError
  unfolding create_account_assets
  create_account player assets w =
      let (players, failure) = create_player db.players w.players player in
      create_account_assets (record w { players = players }) player assets failure

  -- `LinkPlayer` of the user centre, with the error's number.
  module _ (link_player : String → String → Option ℕ) where
    abbrev pub linked : String → Bool → Player → Option ℕ → Outcome EnsurePlayerResponse
    linked account_id created player (some e) = error (linking e)
    linked account_id created player none =
        done (record { account_id = account_id; player_id = player.id; created = created })

    unfoldable pub answer_player : String → Bool → Outcome Player → Outcome EnsurePlayerResponse
    answer_player account_id created (error e) = error e
    answer_player account_id created (done player) =
        linked account_id created player (link_player account_id player.id)

    -- After `create`: a failure is looked into by another read.
    unfoldable pub answer_created :
        World db → String → Player → Option LobbyError → Outcome EnsurePlayerResponse
    unfolding answer_player
    answer_created w account_id candidate none = answer_player account_id true (done candidate)
    answer_created w account_id candidate (some e) =
        answer_player account_id false (find_default_by_account_id db.players w.players account_id)

    unfoldable pub create_default :
        UnitOfWork db
        → World db
        → String
        → Option String
        → ℕ
        → World db × Outcome EnsurePlayerResponse
    unfolding create_account answer_created
    create_default unit w account_id none now = (w, error rejected)
    create_default unit w account_id (some id) now =
        let player = new_player id account_id now in
        let (w', failure) = in_unit db unit w (create_account player (initial_assets id now)) in
        (w', answer_created w' account_id player failure)

    unfoldable pub ensure_found :
        UnitOfWork db
        → World db
        → String
        → Option String
        → ℕ
        → Outcome Player
        → World db × Outcome EnsurePlayerResponse
    unfolding create_default answer_player
    ensure_found unit w account_id new_id now (done player) =
        (w, answer_player account_id false (done player))
    ensure_found unit w account_id new_id now (error e) =
        let fresh = create_default unit w account_id new_id now in
        if player_missing e then fresh else (w, error e)

    -- `new_id` is what `idgen.NewUUID` gives.
    unfoldable pub ensure_player :
        UnitOfWork db
        → World db
        → Option String
        → Option String
        → ℕ
        → World db × Outcome EnsurePlayerResponse
    unfolding ensure_found
    ensure_player unit w none new_id now = (w, error rejected)
    ensure_player unit w (some given) new_id now =
        let account_id = trim_space given in
        let answer =
          ensure_found unit w account_id new_id now
            (find_default_by_account_id db.players w.players account_id) in
        if str_eq account_id "" then (w, error rejected) else answer
