-- ===== src/Battle/Room.antt =====
-- services/battle/domain/room.go. A `float32` is its bit pattern, which the code only copies and
-- compares; `uint64` counters are unbounded; a time is a number of nanoseconds, with 0 for the zero
-- `time.Time`, and `UTC` keeps it. The pointers are not nil.
pub mod Laws
pub mod Valid
mod Examples
use game01_server.Prelude.{
  ℕ, suc, ◌%◌, ◌^◌, Bool, true, false, not, ◌&&◌, ◌||◌, Option, none, some, List, [], ◌∷◌, String,
  ◌+◌,
}
use game01_server.Prelude.Tests.{ltb, ◌==◌, if◌then◌else◌}
use game01_server.Prelude.Int.{ℤ, pos, ltb_ℤ, eqb_ℤ}
use game01_server.Prelude.Eq.{string_eq, str_eq}
use game01_server.Prelude.Maps.{Map, get, put, has}

pub data Error : Type 0 where
  room_not_found invalid_room duplicate_room player_not_in_room duplicate_player : Error
  invalid_player_state snapshots_not_configured : Error
  -- An error of code that is not modelled.
  other : ℕ → Error

pub data RoomStatus : Type 0 where
  unset created running finished : RoomStatus

pub record PlayerState : Type 0 where
  pub player_id : String
  pub hp : ℤ  -- int32
  pub position_x : ℕ  -- float32
  pub position_y : ℕ  -- float32

pub record Room : Type 0 where
  pub id : ℕ
  pub tick : ℕ
  pub state_version : ℕ
  pub status : RoomStatus
  pub players : Map String PlayerState
  pub updated_at : ℕ

-- `==` of two `float32` by their bits: NaN differs from all, and the two zeros are equal.
abbrev pub is_nan : ℕ → Bool
is_nan bits = ltb 0x7F800000 (bits % 2 ^ 31)

abbrev pub float_eq : ℕ → ℕ → Bool
float_eq a b =
    not (is_nan a) && (not (is_nan b) && (a == b || (a % 2 ^ 31 == 0 && b % 2 ^ 31 == 0)))

-- `==` of two player states.
unfoldable pub player_eq : PlayerState → PlayerState → Bool
player_eq p q =
    str_eq p.player_id q.player_id
    && (eqb_ℤ p.hp q.hp
        && (float_eq p.position_x q.position_x && float_eq p.position_y q.position_y))

unfoldable pub validate_player : PlayerState → Option Error
validate_player s =
    if str_eq s.player_id "" || ltb_ℤ s.hp (pos 0) then some invalid_player_state else none

-- The players of a row of entries, each validated; the first error is returned.
unfoldable pub validate_players : Map String PlayerState → Option Error
validate_players [] = none
validate_players ((k, player) ∷ rest) = elim (validate_player player) [
  | none ↦ validate_players rest
  | some e ↦ some e
]

abbrev pub is_unset : RoomStatus → Bool
is_unset unset = true
is_unset _ = false

unfoldable pub validate : Room → Option Error
unfolding validate_players
validate r =
    if r.id == 0 || (r.state_version == 0 || (is_unset r.status || r.updated_at == 0))
    then some invalid_room
    else validate_players r.players

-- The new room, or the error with the room as it was.
unfoldable pub add_player : Room → PlayerState → Room × Option Error
add_player r player = elim (validate_player player) [
  | some e ↦ (r, some e)
  | none ↦
      if has r.players player.player_id
      then (r, some duplicate_player)
      else (record r { players = put r.players player.player_id player }, none)
]

unfoldable pub update_player : Room → PlayerState → Room × Option Error
update_player r player = elim (validate_player player) [
  | some e ↦ (r, some e)
  | none ↦
      if not (has r.players player.player_id)
      then (r, some player_not_in_room)
      else (record r { players = put r.players player.player_id player }, none)
]

-- `Tick` and `StateVersion` are of 64 bits, and wrap.
unfoldable pub advance_tick : Room → ℕ → Room × Option Error
advance_tick r now = elim (validate r) [
  | some e ↦ (r, some e)
  | none ↦ (
    record r {
      tick = suc r.tick % 18446744073709551616;
      state_version = suc r.state_version % 18446744073709551616;
      status = running;
      updated_at = now;
    },
    none,
  )
]

-- The loop of `NewRoom`; `none` where a player is refused.
unfoldable pub add_players : Room → List PlayerState → Room × Option Error
unfolding add_player
add_players r [] = (r, none)
add_players r (player ∷ rest) =
    let (r', err) = add_player r player in
    let later = add_players r' rest in elim err [ some e ↦ (r', some e) | none ↦ later ]

pub data NewRoom : Type 0 where
  ok : Room → NewRoom
  err : Error → NewRoom

unfoldable pub new_room : ℕ → List PlayerState → ℕ → NewRoom
unfolding add_players
new_room room_id players now =
    let room : Room = record {
      id = room_id;
      tick = 0;
      state_version = 1;
      status = created;
      players = [];
      updated_at = now;
    } in
    let (room', refused) = add_players room players in
    if room_id == 0 || now == 0
    then err invalid_room
    else elim refused [ some e ↦ err e | none ↦ ok room' ]
