-- ===== src/Battle/RoomManager/Client.antt =====
-- The client of `RestoreByPlayerIDSince` (services/battle/components/room_manager.go), in every mode.
use game01_server.Prelude.{
  ◌<◌, ◌≡◌, ◌⊎◌, refl, inl, inr, subst, Bool, true, false, Option, none, some, List, ◌++◌, String,
  arith,
}
use game01_server.Prelude.Tests.{ltb, ◌==◌, Bool-cases}
use game01_server.Prelude.Eq.{string_eq}
use game01_server.Prelude.Maps.{Map, get}
use game01_server.Battle.Room.{PlayerState, Room}
use game01_server.Battle.Delta.{RoomDelta}
use game01_server.Battle.RoomManager.{RestoreResult, RestoreMode, full, delta, noop, restore_since}
use game01_server.Battle.RoomManager.Diff.{apply_delta, AgreeAll, Agree-refl, Agree-trans}
use game01_server.Battle.RoomManager.Compose.{apply_delta-AgreeAll}
use game01_server.Battle.RoomManager.History.{Linked, Linked-le, Linked-eq}
use game01_server.Battle.RoomManager.Restore.{compose_deltas_lem}

-- What the client holds after the answer: the room's players, what it held with the delta applied, or what
-- it held.
abbrev pub answer :
    Map String PlayerState → RestoreMode → Room → Option RoomDelta → Map String PlayerState
answer held full room d = room.players
answer held noop room d = held
answer held delta room none = held
answer held delta room (some d) = apply_delta d held

unfoldable pub client_after : Map String PlayerState → RestoreResult → Map String PlayerState
client_after held r = answer held r.mode r.room r.delta

-- A client that holds the players of a room's version on the recorded way ends up with those of the room,
-- whether or not it takes deltas; and if it takes them and is behind, its answer is a delta from its version.
pub restore_since_lem :
    {old base room : Room} {before ds : List RoomDelta} (extra : List RoomDelta)
    (held : Map String PlayerState) (allow_incremental : Bool)
    → Linked old before base
    → Linked base ds room
    → AgreeAll held base.players
    → let r = restore_since (before ++ (ds ++ extra)) base.state_version allow_incremental room in
      AgreeAll (client_after held r) room.players
      × ((allow_incremental ≡ false)
          ⊎ (base.state_version ≡ room.state_version)
          ⊎ ((r.mode ≡ delta) × (r.base_state_version ≡ base.state_version)))
unfolding restore_since client_after
restore_since_lem {old} {base} {room} {before} {ds} extra held allow l m h =
    elim (Bool-cases (base.state_version == room.state_version)) [
      | inl same ↦
          let e : base ≡ room = Linked-eq m (ground arith) in
          rw same (subst (λ r. AgreeAll held r.players) e h, inr (inl (ground arith)))
      | inr differ ↦
          let lt : base.state_version < room.state_version = ground (arith, Linked-le m) in
          let (d, found, agree, _, _) = compose_deltas_lem extra l m lt in
          let applied : AgreeAll (apply_delta d held) room.players =
            λ j. Agree-trans _ _ _ (apply_delta-AgreeAll d held base.players h j) (agree j) in
          let behind : ltb base.state_version room.state_version ≡ true = ground arith in
          elim (Bool-cases allow) [
            | inl a ↦ rw (differ, a, behind, found) (applied, inr (inr (refl, refl)))
            | inr a ↦ rw (differ, a) (λ j. Agree-refl (get room.players j), inl refl)
          ]
    ]
