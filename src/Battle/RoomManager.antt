-- ===== src/Battle/RoomManager.antt =====
-- services/battle/components/room_manager.go. The repository of snapshots is given by the outcome of
-- its calls: `save` is `none` where no repository is configured. A handler that the code passes in is a
-- function from the room to the changed room and its error. Neither the manager nor a handler is nil.
pub mod Deltas
pub mod Diff
pub mod Compose
pub mod Restore
pub mod History
pub mod Client
pub mod Invariant
pub mod Reach
pub mod Failure
mod Examples
use game01_server.Prelude.{
  ℕ, suc, ◌-◌, Bool, true, false, not, ◌&&◌, ◌||◌, Option, none, some, List, [], ◌∷◌, ◌++◌, map,
  String,
}
use game01_server.Prelude.Tests.{ltb, ◌==◌, if◌then◌else◌}
use game01_server.Prelude.Eq.{nat_eq, string_eq, str_eq}
use game01_server.Prelude.Maps.{Map, get, put, del, has}
use game01_server.Prelude.Lists.{length, drop, is_nil}
use game01_server.Battle.Room.{
  Error, room_not_found, invalid_room, duplicate_room, player_not_in_room, snapshots_not_configured,
  RoomStatus, unset, PlayerState, Room, player_eq, validate, advance_tick,
}
use game01_server.Battle.Delta.{RoomDelta}
use Deltas.{delta_between, trim, compose_deltas}

pub record RoomManager : Type 0 where
  pub rooms : Map ℕ Room
  pub deltas : Map ℕ (List RoomDelta)
  pub delta_size : ℕ

unfoldable pub new_room_manager : RoomManager
new_room_manager = record { rooms = []; deltas = []; delta_size = 1024 }

abbrev pub or_nil : Option (List RoomDelta) → List RoomDelta
or_nil none = []
or_nil (some ds) = ds

-- `m.deltas[id]`, nil where there is none.
abbrev pub deltas_of : Map ℕ (List RoomDelta) → ℕ → List RoomDelta
deltas_of deltas id = or_nil (get deltas id)

unfoldable pub save_locked : Option (Room → Option Error) → Room → Option Error
save_locked none room = some snapshots_not_configured
save_locked (some save) room = save room

unfoldable pub create :
    RoomManager → Option (Room → Option Error) → Room → RoomManager × Option Error
unfolding save_locked
create m save room = elim (validate room) [
  | some e ↦ (m, some e)
  | none ↦ if has m.rooms room.id then (m, some duplicate_room) else elim (save_locked save room) [
    | some e ↦ (m, some e)
    | none ↦ (record m { rooms = put m.rooms room.id room; deltas = put m.deltas room.id [] }, none)
  ]
]

unfoldable pub record_delta_locked : RoomManager → Room → Room → RoomManager
unfolding delta_between trim
record_delta_locked m previous current = record m {
  deltas =
      put m.deltas current.id
        (trim m.delta_size (deltas_of m.deltas current.id ++ delta_between previous current ∷ []));
}

-- The tail of `Mutate` once the handler has changed the room to `changed`.
unfoldable pub finish_mutate :
    RoomManager → Option (Room → Option Error) → ℕ → ℕ → Room → Room → RoomManager × Option Error
unfolding save_locked record_delta_locked
finish_mutate m save now room_id previous changed =
    let (ticked, refused) = advance_tick changed now in
    elim refused [
      | some e ↦ (record m { rooms = put m.rooms room_id previous }, some e)
      | none ↦ elim (save_locked save ticked) [
        | some e ↦ (record m { rooms = put m.rooms room_id previous }, some e)
        | none ↦ (
          record_delta_locked (record m { rooms = put m.rooms room_id ticked }) previous ticked,
          none,
        )
      ]
    ]

unfoldable pub mutate :
    RoomManager
    → Option (Room → Option Error)
    → ℕ
    → ℕ
    → (Room → Room × Option Error)
    → RoomManager × Option Error
unfolding finish_mutate
mutate m save now room_id handler =
    if room_id == 0 then (m, some invalid_room) else elim (get m.rooms room_id) [
      | none ↦ (m, some room_not_found)
      | some room ↦ elim (handler room).1 [
        | some e ↦ (record m { rooms = put m.rooms room_id (handler room).0 }, some e)
        | none ↦ finish_mutate m save now room_id room (handler room).0
      ]
    ]

pub data RestoreMode : Type 0 where
  full delta noop : RestoreMode

pub data Found : Type 0 where
  ok : Room → Found
  err : Error → Found

-- The first room of the loop that has the player.
unfoldable pub room_of : Map ℕ Room → String → Option Room
room_of [] player_id = none
room_of ((id, room) ∷ rest) player_id =
    let later = room_of rest player_id in if has room.players player_id then some room else later

-- What `RestoreByPlayerID` knows before its second lock: its answer, or a room of the repository that it is to store.
pub data Looked : Type 0 where
  answered : Found → Looked
  fetched : Room → Looked

-- `RestoreByPlayerID` up to its second lock; `rooms` is the map at the first.
unfoldable pub restore_lookup : Map ℕ Room → Option (String → Found) → String → Looked
unfolding room_of
restore_lookup rooms find player_id =
    if str_eq player_id ""
    then answered (err player_not_in_room)
    else elim (room_of rooms player_id) [
      | some room ↦ answered (ok room)
      | none ↦ elim find [
        | none ↦ answered (err room_not_found)
        | some find_by_player_id ↦ elim (find_by_player_id player_id) [
          | err e ↦ answered (err e)
          | ok room ↦ fetched room
        ]
      ]
    ]

-- The second lock, in which the manager may have become another.
unfoldable pub restore_store : RoomManager → Looked → RoomManager × Found
restore_store m (answered found) = (m, found)
restore_store m (fetched room) = (record m { rooms = put m.rooms room.id room }, ok room)

-- `RestoreByPlayerID`: `rooms` is the map at its first lock, and `m` the manager at its second.
unfoldable pub restore_by_player_id :
    Map ℕ Room → RoomManager → Option (String → Found) → String → RoomManager × Found
unfolding restore_lookup restore_store
restore_by_player_id rooms m find player_id = restore_store m (restore_lookup rooms find player_id)

pub record RestoreResult : Type 0 where
  pub room : Room
  pub mode : RestoreMode
  pub base_state_version : ℕ
  pub delta : Option RoomDelta

pub data Restored : Type 0 where
  done : RestoreResult → Restored
  failed : Error → Restored

-- What `RestoreByPlayerIDSince` makes of the room; `deltas` is read under a lock of its own.
unfoldable pub restore_since : List RoomDelta → ℕ → Bool → Room → RestoreResult
restore_since deltas last_state_version allow_incremental room =
    let composed = compose_deltas room.id deltas last_state_version room.state_version in
    let whole : RestoreResult = record {
      room = room;
      mode = full;
      base_state_version = 0;
      delta = none;
    } in
    if last_state_version == room.state_version
    then record whole { mode = noop; base_state_version = last_state_version }
    else (if allow_incremental && ltb last_state_version room.state_version
        then elim composed [
          | none ↦ whole
          | some d ↦ record whole {
            mode = delta;
            base_state_version = last_state_version;
            delta = some d;
          }
        ]
        else whole)

-- `later` is the manager's map of deltas at the last lock.
unfoldable pub restore_by_player_id_since :
    Map ℕ Room
    → RoomManager
    → Option (String → Found)
    → Map ℕ (List RoomDelta)
    → String
    → ℕ
    → Bool
    → RoomManager × Restored
unfolding restore_since
restore_by_player_id_since rooms m find later player_id last_state_version allow_incremental =
    let (m', found) = restore_by_player_id rooms m find player_id in
    (
      m',
      elim found [
        | err e ↦ failed e
        | ok room ↦
            done (restore_since (deltas_of later room.id) last_state_version allow_incremental room)
      ],
    )
