-- ===== src/Battle/Delta.antt =====
-- services/battle/domain/delta.go.
use game01_server.Prelude.{ℕ, Bool, ◌&&◌, List, String}
use game01_server.Prelude.Tests.{ltb, ◌==◌}
use game01_server.Battle.Room.{RoomStatus, PlayerState}

pub record RoomDelta : Type 0 where
  pub room_id : ℕ
  pub from_state_version : ℕ
  pub to_state_version : ℕ
  pub tick : ℕ
  pub status : RoomStatus
  pub upsert_players : List PlayerState
  pub removed_player_ids : List String

unfoldable pub covers : RoomDelta → ℕ → Bool
covers d last_state_version =
    d.from_state_version == last_state_version && ltb last_state_version d.to_state_version
