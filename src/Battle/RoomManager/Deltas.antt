-- ===== src/Battle/RoomManager/Deltas.antt =====
-- services/battle/components/room_manager.go: how a delta is recorded, and how a row of deltas is
-- composed into one. A Go map of players is read in the order of its list.
use game01_server.Prelude.{ℕ, ◌-◌, not, ◌||◌, Option, none, some, List, [], ◌∷◌, String}
use game01_server.Prelude.Tests.{ltb, ◌==◌, if◌then◌else◌}
use game01_server.Prelude.Eq.{nat_eq, string_eq}
use game01_server.Prelude.Maps.{Map, get, put, del, has}
use game01_server.Prelude.Lists.{length, drop, is_nil}
use game01_server.Battle.Room.{RoomStatus, unset, PlayerState, Room, player_eq}
use game01_server.Battle.Delta.{RoomDelta}

-- The players of the current room that are new or differ from the previous one.
unfoldable pub upserts : Map String PlayerState → Map String PlayerState → List PlayerState
upserts previous [] = []
upserts previous ((player_id, player) ∷ rest) =
    let later = upserts previous rest in
    elim (get previous player_id) [
      | none ↦ player ∷ later
      | some old ↦ if player_eq old player then later else player ∷ later
    ]

-- The ids of the previous room's players that the current room lacks.
unfoldable pub removals : Map String PlayerState → Map String PlayerState → List String
removals current [] = []
removals current ((player_id, player) ∷ rest) =
    let later = removals current rest in if has current player_id then later else player_id ∷ later

unfoldable pub delta_between : Room → Room → RoomDelta
unfolding upserts removals
delta_between previous current = record {
  room_id = current.id;
  from_state_version = previous.state_version;
  to_state_version = current.state_version;
  tick = current.tick;
  status = current.status;
  upsert_players = upserts previous.players current.players;
  removed_player_ids = removals current.players previous.players;
}

-- `deltas[len(deltas)-m.deltaSize:]` where there are more.
unfoldable pub trim : ℕ → List RoomDelta → List RoomDelta
trim size ds = if ltb size (length ds) then drop (length ds - size) ds else ds

-- The variables of the loop in `composeDeltas`; the set of removed ids is a map to `tt`.
pub record Composed : Type 0 where
  pub next_version : ℕ
  pub players : Map String PlayerState
  pub removed : Map String (Unit {0})
  pub tick : ℕ
  pub status : RoomStatus

abbrev pub absorb_upsert : Composed → PlayerState → Composed
absorb_upsert s player = record s {
  players = put s.players player.player_id player;
  removed = del s.removed player.player_id;
}

unfoldable pub absorb_upserts : Composed → List PlayerState → Composed
absorb_upserts s [] = s
absorb_upserts s (player ∷ rest) = absorb_upserts (absorb_upsert s player) rest

abbrev pub absorb_removal : Composed → String → Composed
absorb_removal s player_id = record s {
  players = del s.players player_id;
  removed = put s.removed player_id tt;
}

unfoldable pub absorb_removals : Composed → List String → Composed
absorb_removals s [] = s
absorb_removals s (player_id ∷ rest) = absorb_removals (absorb_removal s player_id) rest

unfoldable pub absorb : Composed → RoomDelta → Composed
unfolding absorb_upserts absorb_removals
absorb s d =
    let s' = absorb_removals (absorb_upserts s d.upsert_players) d.removed_player_ids in
    record s' { tick = d.tick; status = d.status; next_version = d.to_state_version }

unfoldable pub compose_loop : ℕ → Composed → List RoomDelta → Composed
unfolding absorb
compose_loop to_version s [] = s
compose_loop to_version s (d ∷ ds) =
    let skipped = compose_loop to_version s ds in
    let s' = absorb s d in
    let later = compose_loop to_version s' ds in
    if not (d.from_state_version == s.next_version) || ltb to_version d.to_state_version
    then skipped
    else (if s'.next_version == to_version then s' else later)

abbrev pub values {ℓ κ} : {K : Type ℓ} {V : Type κ} → Map K V → List V
values [] = []
values ((k, v) ∷ m) = v ∷ values m

abbrev pub keys {ℓ κ} : {K : Type ℓ} {V : Type κ} → Map K V → List K
keys [] = []
keys ((k, v) ∷ m) = k ∷ keys m

unfoldable pub start : ℕ → Composed
start from_version = record {
  next_version = from_version;
  players = [];
  removed = [];
  tick = 0;
  status = unset;
}

unfoldable pub compose_deltas : ℕ → List RoomDelta → ℕ → ℕ → Option RoomDelta
unfolding start compose_loop
compose_deltas room_id deltas from_version to_version =
    let s = compose_loop to_version (start from_version) deltas in
    if not (ltb from_version to_version) || is_nil deltas
    then none
    else (if not (s.next_version == to_version)
        then none
        else some (record {
          room_id = room_id;
          from_state_version = from_version;
          to_state_version = to_version;
          tick = s.tick;
          status = s.status;
          upsert_players = values s.players;
          removed_player_ids = keys s.removed;
        }))
