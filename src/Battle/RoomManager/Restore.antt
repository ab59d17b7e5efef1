-- ===== src/Battle/RoomManager/Restore.antt =====
-- A player who restores by a delta (services/battle/components/room_manager.go) gets the room that a
-- full restore would give.
use game01_server.Prelude.{
  ℕ, ◌≤◌, ◌<◌, ◌≡◌, refl, subst, inl, inr, ◌∙◌, ap, false, not, ◌||◌, some, List, [], ◌∷◌, ◌++◌,
  String, arith,
}
use game01_server.Prelude.Tests.{ltb, ◌==◌, Bool-cases}
use game01_server.Prelude.Lists.{is_nil}
use game01_server.Prelude.Eq.{string_eq}
use game01_server.Prelude.Maps.{Map, get, has}
use game01_server.Battle.Room.{PlayerState, Room}
use game01_server.Battle.Room.Laws.{IsKeyed}
use game01_server.Battle.Delta.{RoomDelta}
use game01_server.Battle.RoomManager.Deltas.{
  Composed, absorb, compose_loop, compose_deltas, start, values, keys, delta_between,
}
use game01_server.Battle.RoomManager.Diff.{
  apply_delta, AgreeAll, Agree-trans, Agree-refl, apply_delta-delta_between,
}
use game01_server.Battle.RoomManager.Compose.{
  Shows, IsSound, absorb-IsSound, absorb-Shows, apply_delta-combined, apply_delta-AgreeAll,
}
use game01_server.Battle.RoomManager.History.{Linked, done, step, Linked-le, Linked-eq}

-- Where the loop stands when it has reached the room `r`: its maps, over the base, show players that agree
-- with those of `r`.
pub record Stands (base : Map String PlayerState) (s : Composed) (r : Room) : Type 0 where
  pub at_version : s.next_version ≡ r.state_version
  pub sound : IsSound s
  pub shown : Map String PlayerState
  pub shows : Shows s base shown
  pub agrees : AgreeAll shown r.players

absorb_version : (s : Composed) (d : RoomDelta) → (absorb s d).next_version ≡ d.to_state_version
unfolding absorb
absorb_version s d = refl

absorb-Stands :
    (base : Map String PlayerState) (s : Composed) (d : RoomDelta) (r t : Room)
    → d ≡ delta_between r t
    → IsKeyed t.players
    → Stands base s r
    → Stands base (absorb s d) t
unfolding delta_between
absorb-Stands base s d r t e k v = record {
  at_version = absorb_version s d ∙ ap (λ (x : RoomDelta). x.to_state_version) e;
  sound = absorb-IsSound s d v.sound;
  shown = apply_delta d v.shown;
  shows = absorb-Shows base s d v.shown v.shows;
  agrees = λ j. Agree-trans _ _ _ (apply_delta-AgreeAll d v.shown r.players v.agrees j) (now j);
}
  where
    now : AgreeAll (apply_delta d r.players) t.players
    now j = rw e (apply_delta-delta_between r t k j)

-- The loop's tick and status are the room's, and it stands at the room.
abbrev Reaches : Map String PlayerState → Composed → Room → Type 0
Reaches base s r = Stands base s r × (s.tick ≡ r.tick) × (s.status ≡ r.status)

absorb-Reaches :
    (base : Map String PlayerState) (s : Composed) (d : RoomDelta) (r t : Room)
    → d ≡ delta_between r t
    → IsKeyed t.players
    → Stands base s r
    → Reaches base (absorb s d) t
unfolding absorb delta_between
absorb-Reaches base s d r t e k v = (
  absorb-Stands base s d r t e k v,
  ap (λ (x : RoomDelta). x.tick) e,
  ap (λ (x : RoomDelta). x.status) e,
)

-- A delta that starts at the loop's version and does not pass the target is taken.
takes :
    (to_version : ℕ) (s : Composed) (d : RoomDelta) (r t : Room)
    → d ≡ delta_between r t
    → s.next_version ≡ r.state_version
    → t.state_version ≤ to_version
    → (not (d.from_state_version == s.next_version) || ltb to_version d.to_state_version) ≡ false
unfolding delta_between
takes to_version s d r t e at le =
    let from : d.from_state_version ≡ r.state_version =
      ap (λ (x : RoomDelta). x.from_state_version) e in
    let to : d.to_state_version ≡ t.state_version = ap (λ (x : RoomDelta). x.to_state_version) e in
    ground arith

compose_loop-Reaches :
    (base : Map String PlayerState) (s : Composed) {r t : Room} {ds : List RoomDelta}
    (extra : List RoomDelta)
    → Linked r ds t
    → r.state_version < t.state_version
    → Stands base s r
    → Reaches base (compose_loop t.state_version s (ds ++ extra)) t
unfolding compose_loop
compose_loop-Reaches base s extra done lt v = absurd (omega arith)
compose_loop-Reaches base s {r} {t} extra (step {s = m} {ds = ds} d e ver i k l) lt v =
    let one = absorb-Reaches base s d r m e k v in
    rw (takes t.state_version s d r m e v.at_version (Linked-le l))
      (elim (Bool-cases ((absorb s d).next_version == t.state_version)) [
        | inl there ↦
            rw there (
              subst (Reaches base (absorb s d)) (Linked-eq l (ground (arith, one.0.at_version)))
                one)
        | inr before ↦ rw before (
            compose_loop-Reaches base (absorb s d) extra l
              (ground (arith, one.0.at_version, Linked-le l)) one.0)
      ])

-- Deltas from before the client's version are passed over.
compose_loop-skip :
    (to_version : ℕ) (s : Composed) {r t : Room} {ds : List RoomDelta} (extra : List RoomDelta)
    → Linked r ds t
    → t.state_version ≤ s.next_version
    → compose_loop to_version s (ds ++ extra) ≡ compose_loop to_version s extra
unfolding compose_loop delta_between
compose_loop-skip to_version s extra done le = refl
compose_loop-skip to_version s {r} {t} extra (step {s = m} {ds = ds} d e ver i k l) le =
    let from : d.from_state_version ≡ r.state_version =
      ap (λ (x : RoomDelta). x.from_state_version) e in
    let other : (d.from_state_version == s.next_version) ≡ false = ground (arith, Linked-le l) in
    rw other (compose_loop-skip to_version s extra l le)

start_version : (v : ℕ) → v ≤ (start v).next_version
unfolding start
start_version v = omega arith

start-Stands : (r : Room) → Stands r.players (start r.state_version) r
unfolding start get has
start-Stands r = record {
  at_version = refl;
  sound = record { keyed = (tt, λ k p e. cc); apart = λ j h. cc };
  shown = r.players;
  shows = λ j. refl;
  agrees = λ j. Agree-refl (get r.players j);
}

Linked-ne-nil :
    {r t : Room} {ds : List RoomDelta} (before extra : List RoomDelta)
    → Linked r ds t
    → r.state_version < t.state_version
    → is_nil (before ++ (ds ++ extra)) ≡ false
Linked-ne-nil (d ∷ before) extra l lt = refl
Linked-ne-nil [] extra done lt = absurd (omega arith)
Linked-ne-nil [] extra (step d e v i k l) lt = refl

-- `composeDeltas` over a chain from the oldest delta to the room, read at a version on the way: it finds the
-- steps from there to the room, also where newer deltas follow, and the one delta that it makes takes the
-- players of that version to those of the room.
pub compose_deltas_lem :
    {old base room : Room} {before ds : List RoomDelta} (extra : List RoomDelta)
    → Linked old before base
    → Linked base ds room
    → base.state_version < room.state_version
    → (d : RoomDelta) × (compose_deltas room.id
          (before ++ (ds ++ extra))
          base.state_version
          room.state_version
        ≡ some d)
      × AgreeAll (apply_delta d base.players) room.players
      × (d.tick ≡ room.tick)
      × (d.status ≡ room.status)
unfolding compose_deltas
compose_deltas_lem {old} {base} {room} {before} {ds} extra l m lt =
    (sent, found, agree, reached.1, reached.2)
  where
    from : Composed
    from = start base.state_version

    s : Composed
    s = compose_loop room.state_version from (ds ++ extra)

    reached : Reaches base.players s room
    reached = compose_loop-Reaches base.players from extra m lt (start-Stands base)

    sent : RoomDelta
    sent = record {
      room_id = room.id;
      from_state_version = base.state_version;
      to_state_version = room.state_version;
      tick = s.tick;
      status = s.status;
      upsert_players = values s.players;
      removed_player_ids = keys s.removed;
    }

    found :
        compose_deltas room.id (before ++ (ds ++ extra)) base.state_version room.state_version
        ≡ some sent
    found =
        rw
          (
            compose_loop-skip room.state_version from (ds ++ extra) l
                (start_version base.state_version),
            Linked-ne-nil before extra m lt,
          )
          (ground (arith, reached.0.at_version))

    agree : AgreeAll (apply_delta sent base.players) room.players
    agree j =
        rw
          (apply_delta-combined s sent base.players reached.0.shown reached.0.sound reached.0.shows
            refl refl j)
          (reached.0.agrees j)
