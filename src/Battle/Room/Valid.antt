-- ===== src/Battle/Room/Valid.antt =====
-- The rooms that the operations of services/battle/domain/room.go make are valid.
use game01_server.Prelude.{
  ℕ, suc, ◌<◌, ◌%◌, ◌≡◌, ◌≢◌, ◌⊎◌, inl, inr, true, false, none, some, List, [], ◌∷◌, String, arith,
  subst, sym,
}
use game01_server.Prelude.Tests.{Bool-cases, Option-cases, if◌then◌else◌}
use game01_server.Prelude.Eq.{string_eq, str_eq}
use game01_server.Prelude.Maps.{Map, get, put, has, get-put}
use game01_server.Battle.Room.{
  duplicate_player, player_not_in_room, created, PlayerState, Room, ok, validate_player,
  validate_players, validate, add_player, update_player, advance_tick, add_players, new_room,
}
use game01_server.Battle.Room.Laws.{IsKeyed, put-IsKeyed}

-- `Validate` accepts the room, and each player stands under its own id.
pub record IsValid (r : Room) : Type 0 where
  pub accepted : validate r ≡ none
  pub keyed : IsKeyed r.players

validate_players-put :
    (m : Map String PlayerState) (p : PlayerState)
    → validate_players m ≡ none
    → validate_player p ≡ none
    → validate_players (put m p.player_id p) ≡ none
unfolding validate_players put
validate_players-put [] p h v = ground (arith, v)
validate_players-put ((k, q) ∷ m) p h v = ground (arith, v, validate_players-put m p)

put-IsValid :
    (r : Room) (p : PlayerState)
    → IsValid r
    → validate_player p ≡ none
    → IsValid (record r { players = put r.players p.player_id p })
unfolding validate
put-IsValid r p v h = record {
  accepted = ground (arith, v.accepted, validate_players-put r.players p, h);
  keyed = put-IsKeyed r.players p v.keyed;
}

add_player_cases :
    (r : Room) (p : PlayerState)
    → (((add_player r p).0 ≡ r) × ((add_player r p).1 ≢ none))
      ⊎ ((validate_player p ≡ none)
          × (has r.players p.player_id ≡ false)
          × (add_player r p ≡ (record r { players = put r.players p.player_id p }, none)))
unfolding add_player
add_player_cases r p = ground arith

update_player_cases :
    (r : Room) (p : PlayerState)
    → (((update_player r p).0 ≡ r) × ((update_player r p).1 ≢ none))
      ⊎ ((validate_player p ≡ none)
          × (has r.players p.player_id ≡ true)
          × (update_player r p ≡ (record r { players = put r.players p.player_id p }, none)))
unfolding update_player
update_player_cases r p = ground arith

add_player-IsValid : (r : Room) (p : PlayerState) → IsValid r → IsValid (add_player r p).0
add_player-IsValid r p v = elim (add_player_cases r p) [
  | inl (same, _) ↦ subst IsValid (sym same) v
  | inr (h, _, e) ↦ rw e (put-IsValid r p v h)
]

update_player-IsValid : (r : Room) (p : PlayerState) → IsValid r → IsValid (update_player r p).0
update_player-IsValid r p v = elim (update_player_cases r p) [
  | inl (same, _) ↦ subst IsValid (sym same) v
  | inr (h, _, e) ↦ rw e (put-IsValid r p v h)
]

advance_tick-IsValid :
    (r : Room) (now : ℕ)
    → now ≢ 0
    → suc r.state_version < 18446744073709551616
    → IsValid r
    → IsValid (advance_tick r now).0
unfolding advance_tick validate
advance_tick-IsValid r now later below v =
    let same : suc r.state_version % 18446744073709551616 ≡ suc r.state_version =
      omega (arith, below) in
    record { accepted = ground (arith, v.accepted, later, same); keyed = ground (arith, v.keyed) }

add_players_cases :
    (r : Room) (p : PlayerState) (ps : List PlayerState)
    → ((add_players r (p ∷ ps)).0 ≡ (add_player r p).0)
      ⊎ ((add_players r (p ∷ ps)).0 ≡ (add_players (add_player r p).0 ps).0)
unfolding add_players
add_players_cases r p ps = ground arith

add_players-IsValid : (r : Room) (ps : List PlayerState) → IsValid r → IsValid (add_players r ps).0
unfolding add_players
add_players-IsValid r [] v = v
add_players-IsValid r (p ∷ ps) v =
    let w = add_player-IsValid r p v in
    elim (add_players_cases r p ps) [
      | inl refused ↦ subst IsValid (sym refused) w
      | inr added ↦ subst IsValid (sym added) (add_players-IsValid (add_player r p).0 ps w)
    ]

blank : ℕ → ℕ → Room
blank room_id now = record {
  id = room_id;
  tick = 0;
  state_version = 1;
  status = created;
  players = [];
  updated_at = now;
}

blank-IsValid : (room_id now : ℕ) → room_id ≢ 0 → now ≢ 0 → IsValid (blank room_id now)
unfolding blank validate validate_players get
blank-IsValid room_id now h k = record {
  accepted = ground (arith, h, k);
  keyed = (tt, λ j p e. cc);
}

new_room_cases :
    (room_id : ℕ) (players : List PlayerState) (now : ℕ) (r : Room)
    → new_room room_id players now ≡ ok r
    → (room_id ≢ 0) × (now ≢ 0) × ((add_players (blank room_id now) players).0 ≡ r)
unfolding new_room blank
new_room_cases room_id players now r e = ground arith

new_room-IsValid :
    (room_id : ℕ) (players : List PlayerState) (now : ℕ) (r : Room)
    → new_room room_id players now ≡ ok r
    → IsValid r
new_room-IsValid room_id players now r e =
    let (h, k, same) = new_room_cases room_id players now r e in
    subst IsValid same
      (add_players-IsValid (blank room_id now) players (blank-IsValid room_id now h k))

-- The operations of a room: a tick with a clock that is not the zero time, before the state version has reached the end of
-- its 64 bits.
pub data Step : Room → Room → Type 0 where
  adds : (r : Room) (p : PlayerState) → Step r (add_player r p).0
  updates : (r : Room) (p : PlayerState) → Step r (update_player r p).0
  ticks :
      (r : Room) (now : ℕ)
      → now ≢ 0
      → suc r.state_version < 18446744073709551616
      → Step r (advance_tick r now).0

pub data Reach : Room → Type 0 where
  new :
      (room_id : ℕ) (players : List PlayerState) (now : ℕ) (r : Room)
      → new_room room_id players now ≡ ok r
      → Reach r
  next : {r s : Room} → Reach r → Step r s → Reach s

Step-IsValid : {r s : Room} → Step r s → IsValid r → IsValid s
Step-IsValid (adds r p) v = add_player-IsValid r p v
Step-IsValid (updates r p) v = update_player-IsValid r p v
Step-IsValid (ticks r now h below) v = advance_tick-IsValid r now h below v

-- A room that `NewRoom` returned stays valid under any row of the operations, those that return an error included, where
-- no `AdvanceTick` is given the zero time, and none would take the state version past its 64 bits: `Validate` accepts the
-- room, so that `AdvanceTick` does not refuse it, and each player stands once, under its own id.
pub Reach-IsValid : {r : Room} → Reach r → IsValid r
Reach-IsValid (new room_id players now r e) = new_room-IsValid room_id players now r e
Reach-IsValid (next h s) = Step-IsValid s (Reach-IsValid h)

-- `AddPlayer` changes the room exactly for a valid player of an id that is not in it, `UpdatePlayer` for a valid
-- player of an id that is; then the room has that player and the others as before, and the two never both succeed.
-- Where they return an error the room does not change.
pub add_or_update :
    (r : Room) (p : PlayerState)
    → (((add_player r p).0 ≡ r)
        × ((add_player r p).1 ≢ none)
        × ((update_player r p).0 ≡ r)
        × ((update_player r p).1 ≢ none)
        × (validate_player p ≢ none))
      ⊎ ((validate_player p ≡ none)
          × (has r.players p.player_id ≡ false)
          × ((add_player r p).1 ≡ none)
          × ((k : String)
              → get (add_player r p).0.players k
                ≡ (if str_eq p.player_id k then some p else get r.players k))
          × (update_player r p ≡ (r, some player_not_in_room)))
      ⊎ ((validate_player p ≡ none)
          × (has r.players p.player_id ≡ true)
          × ((update_player r p).1 ≡ none)
          × ((k : String)
              → get (update_player r p).0.players k
                ≡ (if str_eq p.player_id k then some p else get r.players k))
          × (add_player r p ≡ (r, some duplicate_player)))
unfolding add_player update_player
add_or_update r p = elim (Option-cases (validate_player p)) [
  | inr (e, bad) ↦ inl (ground arith)
  | inl fine ↦ elim (Bool-cases (has r.players p.player_id)) [
    | inl there ↦ inr (inr (ground (arith, get-put r.players p.player_id p)))
    | inr absent ↦ inr (inl (ground (arith, get-put r.players p.player_id p)))
  ]
]
