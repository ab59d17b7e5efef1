-- ===== src/Battle/Room/Examples.antt =====
-- Runs of the operations of services/battle/domain/room.go.
use game01_server.Prelude.{suc, ◌<◌, ◌≡◌, refl, arith, [], ◌∷◌}
use game01_server.Prelude.Eq.{string_eq}
use game01_server.Prelude.Maps.{get, put, has}
use game01_server.Prelude.Int.{pos}
use game01_server.Battle.Room.{
  PlayerState, Room, created, ok, new_room, add_players, add_player, validate_player, advance_tick,
}
use game01_server.Battle.Room.Valid.{IsValid, new, next, adds, ticks, Reach-IsValid}

abbrev ann : PlayerState
ann = record { player_id = "ann"; hp = pos 90; position_x = 0; position_y = 0 }

abbrev bob : PlayerState
bob = record { player_id = "bob"; hp = pos 50; position_x = 0; position_y = 0 }

abbrev opening : Room
opening = record {
  id = 7;
  tick = 0;
  state_version = 1;
  status = created;
  players = ("ann", ann) ∷ [];
  updated_at = 5;
}

opens : new_room 7 (ann ∷ []) 5 ≡ ok opening
unfolding new_room add_players add_player validate_player has put get
opens = refl

below : suc (add_player opening bob).0.state_version < 18446744073709551616
unfolding add_player validate_player
below = ground arith

Reach-IsValid_example : IsValid (advance_tick (add_player opening bob).0 6).0
Reach-IsValid_example = Reach-IsValid (
    next (next (new 7 (ann ∷ []) 5 opening opens) (adds opening bob))
      (ticks (add_player opening bob).0 6 (λ e. cc) below))
