-- ===== src/Battle/RoomManager/Examples.antt =====
-- Runs of the room manager of services/battle/components/room_manager.go.
use game01_server.Prelude.{
  ◌≡◌, ◌⊎◌, inl, inr, refl, subst, true, false, Option, none, some, List, [], ◌∷◌, ◌++◌, String,
  arith,
}
use game01_server.Prelude.Eq.{nat_eq, string_eq}
use game01_server.Prelude.Maps.{get, put, has, Distinct}
use game01_server.Prelude.Int.{pos}
use game01_server.Battle.Room.{
  Error, other, created, running, PlayerState, Room, player_eq, validate, validate_player,
  advance_tick,
}
use game01_server.Battle.Room.Laws.{IsKeyed, put-IsKeyed}
use game01_server.Battle.Delta.{RoomDelta}
use game01_server.Battle.RoomManager.{
  RoomManager, delta, new_room_manager, create, mutate, save_locked, deltas_of, restore_since,
}
use game01_server.Battle.RoomManager.Deltas.{delta_between, compose_deltas, trim}
use game01_server.Battle.RoomManager.Diff.{
  apply_delta, Agree, AgreeAll, Agree-refl, apply_delta-delta_between,
}
use game01_server.Battle.RoomManager.History.{Linked, done, step}
use game01_server.Battle.RoomManager.Restore.{compose_deltas_lem}
use game01_server.Battle.RoomManager.Client.{client_after, restore_since_lem}
use game01_server.Battle.RoomManager.Invariant.{AllRecorded, Behaves, IsBelow}
use game01_server.Battle.RoomManager.Reach.{new, next, creates, mutates, Reach-AllRecorded}
use game01_server.Battle.RoomManager.Failure.{
  IsComparable, no_change, mutate_failed, failed_change_lost,
}

abbrev ann : PlayerState
ann = record { player_id = "ann"; hp = pos 90; position_x = 0; position_y = 0 }

abbrev bob : PlayerState
bob = record { player_id = "bob"; hp = pos 50; position_x = 0; position_y = 0 }

abbrev opening : Room
opening = record {
  id = 7;
  tick = 0;
  state_version = 1;
  status = created;
  players = ("ann", ann) ∷ [];
  updated_at = 5;
}

-- Ann is hurt and Bob joins.
abbrev second : Room
second = record opening {
  tick = 1;
  state_version = 2;
  status = running;
  players = ("ann", record ann { hp = pos 80 }) ∷ ("bob", bob) ∷ [];
}

-- Ann leaves.
abbrev third : Room
third = record second { tick = 2; state_version = 3; players = ("bob", bob) ∷ [] }

nobody-IsKeyed : IsKeyed []
unfolding get
nobody-IsKeyed = (tt, λ k p e. cc)

second-IsKeyed : IsKeyed second.players
unfolding put
second-IsKeyed =
    put-IsKeyed (("ann", record ann { hp = pos 80 }) ∷ []) bob
      (put-IsKeyed [] (record ann { hp = pos 80 }) nobody-IsKeyed)

third-IsKeyed : IsKeyed third.players
unfolding put
third-IsKeyed = put-IsKeyed [] bob nobody-IsKeyed

opening-IsKeyed : IsKeyed opening.players
unfolding put
opening-IsKeyed = put-IsKeyed [] ann nobody-IsKeyed

apply_delta-delta_between_example :
    AgreeAll (apply_delta (delta_between opening second) opening.players) second.players
apply_delta-delta_between_example = apply_delta-delta_between opening second second-IsKeyed

abbrev both : List RoomDelta
both = delta_between opening second ∷ delta_between second third ∷ []

two_steps : Linked opening both third
two_steps =
    step (delta_between opening second) refl refl refl second-IsKeyed
      (step (delta_between second third) refl refl refl third-IsKeyed done)

compose_deltas_lem_example :
    (d : RoomDelta) × (compose_deltas 7 both 1 3 ≡ some d)
    × AgreeAll (apply_delta d opening.players) third.players
    × (d.tick ≡ 2)
    × (d.status ≡ running)
compose_deltas_lem_example = compose_deltas_lem [] done two_steps (omega arith)

restore_since_lem_example :
    let r = restore_since both 1 true third in
    AgreeAll (client_after opening.players r) third.players
    × ((true ≡ false)
        ⊎ (opening.state_version ≡ third.state_version)
        ⊎ ((r.mode ≡ delta) × (r.base_state_version ≡ opening.state_version)))
restore_since_lem_example =
    restore_since_lem [] opening.players true done two_steps
      (λ j. Agree-refl (get opening.players j))

-- A repository that stores whatever it is given.
abbrev stores : Option (Room → Option Error)
stores = some (λ room. none)

join : Room → Room × Option Error
join r = (record r { players = put r.players "bob" bob }, none)

join-Behaves : Behaves join
unfolding join
join-Behaves = record {
  fails_unchanged = λ r e h. cc;
  keeps_id = λ r. refl;
  keeps_version = λ r. refl;
  keeps_keys = λ r k. put-IsKeyed r.players bob k;
}

opened-IsBelow : IsBelow (get (create new_room_manager stores opening).0.rooms 7)
unfolding create new_room_manager save_locked validate validate_player get put has
opened-IsBelow = ground arith

Reach-AllRecorded_example :
    AllRecorded (mutate (create new_room_manager stores opening).0 stores 6 7 join).0
Reach-AllRecorded_example = Reach-AllRecorded (
    next (next new (creates new_room_manager stores opening opening-IsKeyed)) (
      mutates (create new_room_manager stores opening).0 stores 6 7 join join-Behaves
        opened-IsBelow))

abbrev held : RoomManager
held = record { rooms = (7, opening) ∷ []; deltas = (7, []) ∷ []; delta_size = 1024 }

-- Bob joins, and then the handler fails.
abbrev half_join : Room → Room × Option Error
half_join r = (record r { players = put r.players "bob" bob }, some (other 1))

there : get held.rooms 7 ≡ some opening
unfolding get
there = refl

half_join_fails : (mutate held stores 6 7 half_join).1 ≡ some (other 1)
unfolding mutate get
half_join_fails = refl

mutate_failed_example :
    let m' = (mutate held stores 6 7 half_join).0 in
    (m'.deltas ≡ held.deltas)
    × (((some (other 1) ≡ some (other 1)) × (get m'.rooms 7 ≡ some (half_join opening).0))
        ⊎ ((some (other 1) ≡ none) × (get m'.rooms 7 ≡ some opening)))
mutate_failed_example =
    mutate_failed held stores 6 7 half_join opening (other 1) (λ e. cc) there half_join_fails

ticks : (advance_tick (half_join opening).0 6).1 ≡ none
unfolding advance_tick validate validate_player put
ticks = refl

saves : save_locked stores (advance_tick (half_join opening).0 6).0 ≡ none
unfolding save_locked
saves = refl

joined-Distinct : Distinct (half_join opening).0.players
joined-Distinct = (put-IsKeyed opening.players bob opening-IsKeyed).0

ann_or_bob :
    (k : String) (p : PlayerState)
    → get (half_join opening).0.players k ≡ some p
    → (ann ≡ p) ⊎ (bob ≡ p)
unfolding put get
ann_or_bob k p e = ground arith

ann_eq : player_eq ann ann ≡ true
unfolding player_eq
ann_eq = refl

bob_eq : player_eq bob bob ≡ true
unfolding player_eq
bob_eq = refl

joined-IsComparable : IsComparable (half_join opening).0.players
joined-IsComparable k p e = elim (ann_or_bob k p e) [
  | inl same ↦ subst (λ q. player_eq q q ≡ true) same ann_eq
  | inr same ↦ subst (λ q. player_eq q q ≡ true) same bob_eq
]

bob_new : ¬ Agree (get opening.players "bob") (get (half_join opening).0.players "bob")
unfolding get put
bob_new a = a

failed_change_lost_example :
    let t = (advance_tick (half_join opening).0 6).0 in
    let d = delta_between (half_join opening).0 t in
    let m₁ = (mutate held stores 6 7 half_join).0 in
    let m₂ = (mutate m₁ stores 6 7 no_change).0 in
    (get m₂.rooms 7 ≡ some t)
    × (deltas_of m₂.deltas 7 ≡ trim m₁.delta_size (deltas_of held.deltas 7 ++ d ∷ []))
    × (¬ AgreeAll (apply_delta d opening.players) t.players)
failed_change_lost_example =
    failed_change_lost held stores 6 7 opening (other 1) half_join "bob" (λ e. cc) there refl refl
      ticks saves joined-Distinct joined-IsComparable bob_new
