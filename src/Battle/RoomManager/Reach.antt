-- ===== src/Battle/RoomManager/Reach.antt =====
-- What holds after any calls on a room manager (services/battle/components/room_manager.go).
use game01_server.Prelude.{
  ℕ, ◌≡◌, refl, inl, inr, subst, sym, ◌⊎◌, Option, none, some, [], String, arith,
}
use game01_server.Prelude.Tests.{Bool-cases, Option-cases}
use game01_server.Prelude.Eq.{nat_eq, string_eq, str_eq}
use game01_server.Prelude.Maps.{Map, get, put}
use game01_server.Battle.Room.{Error, Room}
use game01_server.Battle.Room.Laws.{IsKeyed}
use game01_server.Battle.RoomManager.{
  RoomManager, Found, ok, err, new_room_manager, deltas_of, create, mutate, restore_lookup,
  restore_store, restore_by_player_id, room_of,
}
use game01_server.Battle.RoomManager.History.{Linked, done}
use game01_server.Battle.RoomManager.Invariant.{
  Recorded, AllRecorded, Behaves, IsBelow, replace-AllRecorded, create-AllRecorded,
  mutate-AllRecorded,
}

-- A room that a restore stores, with the repository's answer, is one that the manager does not hold at that moment, and
-- has each player under his id.
abbrev pub IsFresh : RoomManager → Option (String → Found) → Type 0
IsFresh m find =
    (f : String → Found) (player_id : String) (r : Room)
    → find ≡ some f
    → f player_id ≡ ok r
    → (get m.rooms r.id ≡ none) × IsKeyed r.players

Found-cases : (f : Found) → ((r : Room) × (f ≡ ok r)) ⊎ ((e : Error) × (f ≡ err e))
Found-cases (ok r) = inl (r, refl)
Found-cases (err e) = inr (e, refl)

restore_cases :
    (rooms : Map ℕ Room) (m : RoomManager) (find : Option (String → Found)) (player_id : String)
    → let m' = (restore_by_player_id rooms m find player_id).0 in
      (m' ≡ m)
      ⊎ ((f : String → Found) × (r : Room) × (find ≡ some f)
          × (f player_id ≡ ok r)
          × (m' ≡ record m { rooms = put m.rooms r.id r }))
unfolding restore_by_player_id restore_lookup restore_store
restore_cases rooms m find player_id = elim (Bool-cases (str_eq player_id "")) [
  | inl nobody ↦ inl (ground arith)
  | inr named ↦ elim (Option-cases (room_of rooms player_id)) [
    | inr (r, held) ↦ inl (ground arith)
    | inl absent ↦ elim (Option-cases find) [
      | inl unset ↦ inl (ground arith)
      | inr (f, there) ↦ elim (Found-cases (f player_id)) [
        | inr (e, failed) ↦ inl (ground arith)
        | inl (r, found) ↦ inr (f, r, there, found, ground arith)
      ]
    ]
  ]
]

restore-AllRecorded :
    (rooms : Map ℕ Room) (m : RoomManager) (find : Option (String → Found)) (player_id : String)
    → IsFresh m find
    → AllRecorded m
    → AllRecorded (restore_by_player_id rooms m find player_id).0
restore-AllRecorded rooms m find player_id fresh all = elim (restore_cases rooms m find player_id) [
  | inl same ↦ subst AllRecorded (sym same) all
  | inr (f, r, there, found, m') ↦
      let (new, keyed) = fresh f player_id r there found in
      let none_yet : deltas_of m.deltas r.id ≡ [] =
        subst (Recorded (deltas_of m.deltas r.id) r.id) new (all r.id) in
      subst AllRecorded (sym m') (
        replace-AllRecorded m r.id r all
          (refl, keyed, (r, subst (λ ds. Linked r ds r) (sym none_yet) done)))
]

-- Any number of calls, in the order of the locks under which they change the manager. A restore may have looked for the
-- player in any map before.
pub data Step : RoomManager → RoomManager → Type 0 where
  creates :
      (m : RoomManager) (save : Option (Room → Option Error)) (room : Room)
      → IsKeyed room.players
      → Step m (create m save room).0
  mutates :
      (m : RoomManager) (save : Option (Room → Option Error)) (now id : ℕ)
      (handler : Room → Room × Option Error)
      → Behaves handler
      → IsBelow (get m.rooms id)
      → Step m (mutate m save now id handler).0
  restores :
      (rooms : Map ℕ Room) (m : RoomManager) (find : Option (String → Found)) (player_id : String)
      → IsFresh m find
      → Step m (restore_by_player_id rooms m find player_id).0

pub data Reach : RoomManager → Type 0 where
  new : Reach new_room_manager
  next : {m m' : RoomManager} → Reach m → Step m m' → Reach m'

Step-AllRecorded : {m m' : RoomManager} → Step m m' → AllRecorded m → AllRecorded m'
Step-AllRecorded (creates m save room k) all = create-AllRecorded m save room k all
Step-AllRecorded (mutates m save now id handler b below) all =
    mutate-AllRecorded m save now id handler b below all
Step-AllRecorded (restores rooms m find player_id f) all =
    restore-AllRecorded rooms m find player_id f all

new-AllRecorded : AllRecorded new_room_manager
unfolding new_room_manager get
new-AllRecorded id = refl

-- After any calls on a new manager, also where a restore looked for its player before other calls and stores the room
-- after them, under these conditions: the rooms that are created and restored have each player under his id, a restore
-- stores only a room that the manager does not hold at that moment (which the code does not check), the handlers behave,
-- and no state version passes the end of its 64 bits. Then each room stands under its id with each player under his, and
-- its deltas are an unbroken chain of recorded steps, each for one state version, that ends at the room, also after the
-- oldest were dropped.
pub Reach-AllRecorded : {m : RoomManager} → Reach m → AllRecorded m
Reach-AllRecorded new = new-AllRecorded
Reach-AllRecorded (next r s) = Step-AllRecorded s (Reach-AllRecorded r)
