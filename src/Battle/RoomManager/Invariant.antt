-- ===== src/Battle/RoomManager/Invariant.antt =====
-- What every operation of the room manager keeps (services/battle/components/room_manager.go).
use game01_server.Prelude.{
  ℕ, suc, ◌<◌, ◌%◌, ◌≡◌, refl, inl, inr, subst, ap, sym, ◌∙◌, ◌⊎◌, Option, none, some, List, [],
  ◌∷◌, ◌++◌, arith,
}
use game01_server.Prelude.Tests.{◌==◌, Bool-cases, Option-cases}
use game01_server.Prelude.Eq.{nat_eq, string_eq}
use game01_server.Prelude.Maps.{get, put, get-put}
use game01_server.Battle.Room.{Error, Room, advance_tick}
use game01_server.Battle.Room.Laws.{IsKeyed}
use game01_server.Battle.Delta.{RoomDelta}
use game01_server.Battle.RoomManager.{
  RoomManager, deltas_of, create, mutate, record_delta_locked, save_locked,
}
use game01_server.Battle.RoomManager.Deltas.{delta_between, trim}
use game01_server.Battle.RoomManager.History.{Linked, done, step, Linked-append, Linked-trim}

-- A room of the manager stands under its id, with each player under his, at the end of the chain of its deltas;
-- an id with no room has no deltas.
abbrev pub Recorded : List RoomDelta → ℕ → Option Room → Type 0
Recorded ds id none = ds ≡ []
Recorded ds id (some r) = (r.id ≡ id) × IsKeyed r.players × ((old : Room) × Linked old ds r)

abbrev pub AllRecorded : RoomManager → Type 0
AllRecorded m = (id : ℕ) → Recorded (deltas_of m.deltas id) id (get m.rooms id)

-- A handler that keeps to its part: it leaves id and state version alone and each player under his id, and
-- where it returns an error it leaves the room as it was.
pub record Behaves (handler : Room → Room × Option Error) : Type 0 where
  pub fails_unchanged : (r : Room) (e : Error) → (handler r).1 ≡ some e → (handler r).0 ≡ r
  pub keeps_id : (r : Room) → (handler r).0.id ≡ r.id
  pub keeps_version : (r : Room) → (handler r).0.state_version ≡ r.state_version
  pub keeps_keys : (r : Room) → IsKeyed r.players → IsKeyed (handler r).0.players

-- One entry of the two maps is changed.
put-AllRecorded :
    (m : RoomManager) (id : ℕ) (r : Room) (ds : List RoomDelta)
    → AllRecorded m
    → Recorded ds id (some r)
    → AllRecorded (record m { rooms = put m.rooms id r; deltas = put m.deltas id ds })
put-AllRecorded m id r ds all h j =
    rw (get-put m.rooms id r j, get-put m.deltas id ds j)
      (elim (Bool-cases (id == j)) [
        | inl same ↦ rw same (subst (λ k. Recorded ds k (some r)) (ground arith) h)
        | inr differ ↦ rw differ (all j)
      ])

-- A room is replaced by one with the same chain.
pub replace-AllRecorded :
    (m : RoomManager) (id : ℕ) (r : Room)
    → AllRecorded m
    → Recorded (deltas_of m.deltas id) id (some r)
    → AllRecorded (record m { rooms = put m.rooms id r })
replace-AllRecorded m id r all h j = rw (get-put m.rooms id r j) (elim (Bool-cases (id == j)) [
  | inl same ↦ rw same (subst (λ k. Recorded (deltas_of m.deltas k) k (some r)) (ground arith) h)
  | inr differ ↦ rw differ (all j)
])

create_cases :
    (m : RoomManager) (save : Option (Room → Option Error)) (room : Room)
    → ((create m save room).0 ≡ m)
      ⊎ ((create m save room).0
          ≡ record m { rooms = put m.rooms room.id room; deltas = put m.deltas room.id [] })
unfolding create
create_cases m save room = ground arith

pub create-AllRecorded :
    (m : RoomManager) (save : Option (Room → Option Error)) (room : Room)
    → IsKeyed room.players
    → AllRecorded m
    → AllRecorded (create m save room).0
create-AllRecorded m save room k all = elim (create_cases m save room) [
  | inl e ↦ subst AllRecorded (sym e) all
  | inr e ↦
      subst AllRecorded (sym e) (put-AllRecorded m room.id room [] all (refl, k, (room, done)))
]

-- A ticked room is one step of the version behind its predecessor.
abbrev ticked : Room → ℕ → Room
ticked r now = (advance_tick r now).0

tick_step :
    (r : Room) (now : ℕ)
    → suc r.state_version < 18446744073709551616
    → (advance_tick r now).1 ≡ none
    → ((ticked r now).state_version ≡ suc r.state_version)
      × ((ticked r now).id ≡ r.id)
      × ((ticked r now).players ≡ r.players)
unfolding advance_tick
tick_step r now below e =
    let same : suc r.state_version % 18446744073709551616 ≡ suc r.state_version =
      omega (arith, below) in
    ground (arith, same, e)

-- The state version of the room has not reached the end of its 64 bits.
abbrev pub IsBelow : Option Room → Type 0
IsBelow none = Unit
IsBelow (some r) = suc r.state_version < 18446744073709551616

-- The outcomes of `Mutate`: nothing is stored; the handler failed and its room stays; the room is put back; the
-- ticked room is stored and its delta recorded.
mutate_cases :
    (m : RoomManager) (save : Option (Room → Option Error)) (now id : ℕ)
    (handler : Room → Room × Option Error)
    → let m' = (mutate m save now id handler).0 in
      (m' ≡ m)
      ⊎ ((r : Room) × (get m.rooms id ≡ some r)
          × (((e : Error) × ((handler r).1 ≡ some e)
                × (m' ≡ record m { rooms = put m.rooms id (handler r).0 }))
              ⊎ (m' ≡ record m { rooms = put m.rooms id r })
              ⊎ (((advance_tick (handler r).0 now).1 ≡ none)
                  × (m'
                      ≡ record_delta_locked
                          (record m { rooms = put m.rooms id (ticked (handler r).0 now) })
                          r
                          (ticked (handler r).0 now)))))
unfolding mutate
mutate_cases m save now id handler = elim (Bool-cases (id == 0)) [
  | inl zero_id ↦ inl (ground arith)
  | inr named ↦ elim (Option-cases (get m.rooms id)) [
    | inl absent ↦ inl (ground arith)
    | inr (r, there) ↦ inr (
      r,
      there,
      elim (Option-cases (handler r).1) [
        | inr (e, failed) ↦ inl (e, failed, ground arith)
        | inl handled ↦ inr (elim (Option-cases (advance_tick (handler r).0 now).1) [
          | inr (e, invalid) ↦ inl (ground arith)
          | inl valid ↦ elim (Option-cases (save_locked save (ticked (handler r).0 now))) [
            | inr (e, unsaved) ↦ inl (ground arith)
            | inl saved ↦ inr (valid, ground arith)
          ]
        ])
      ],
    )
  ]
]

record_delta_locked-AllRecorded :
    (m : RoomManager) (id : ℕ) (r t : Room)
    → AllRecorded m
    → Recorded (deltas_of m.deltas id) id (some r)
    → t.id ≡ id
    → t.state_version ≡ suc r.state_version
    → IsKeyed t.players
    → AllRecorded (record_delta_locked (record m { rooms = put m.rooms id t }) r t)
unfolding record_delta_locked
record_delta_locked-AllRecorded m id r t all (own, keyed, (old, l)) e v k =
    let longer = Linked-append l (step (delta_between r t) refl v (e ∙ sym own) k done) in
    let (s, kept) = Linked-trim m.delta_size longer in
    let ds : List RoomDelta = trim m.delta_size (deltas_of m.deltas id ++ delta_between r t ∷ []) in
    let here : AllRecorded (record m { rooms = put m.rooms id t; deltas = put m.deltas id ds }) =
      put-AllRecorded m id t ds all (e, k, (s, kept)) in
    let at : ℕ → RoomManager = λ k. record m {
      rooms = put m.rooms id t;
      deltas = put m.deltas k (trim m.delta_size (deltas_of m.deltas k ++ delta_between r t ∷ []));
    } in
    subst AllRecorded (sym (ap at e)) here

pub Recorded-at :
    (m : RoomManager) (id : ℕ) (r : Room)
    → AllRecorded m
    → get m.rooms id ≡ some r
    → Recorded (deltas_of m.deltas id) id (some r)
Recorded-at m id r all there = subst (Recorded (deltas_of m.deltas id) id) there (all id)

pub mutate-AllRecorded :
    (m : RoomManager) (save : Option (Room → Option Error)) (now id : ℕ)
    (handler : Room → Room × Option Error)
    → Behaves handler
    → IsBelow (get m.rooms id)
    → AllRecorded m
    → AllRecorded (mutate m save now id handler).0
mutate-AllRecorded m save now id handler b below all = elim (mutate_cases m save now id handler) [
  | inl same ↦ subst AllRecorded (sym same) all
  | inr (r, there, inl (e, failed, m')) ↦ subst AllRecorded (sym m') (
      replace-AllRecorded m id (handler r).0 all
        (rw (b.fails_unchanged r e failed) (Recorded-at m id r all there)))
  | inr (r, there, inr (inl m')) ↦
      subst AllRecorded (sym m') (replace-AllRecorded m id r all (Recorded-at m id r all there))
  | inr (r, there, inr (inr (valid, m'))) ↦
      let at = Recorded-at m id r all there in
      let (version, own, players) =
        tick_step (handler r).0 now
          (subst (λ v. suc v < 18446744073709551616) (sym (b.keeps_version r))
            (subst IsBelow there below))
          valid in
      subst AllRecorded (sym m') (
        record_delta_locked-AllRecorded m id r (ticked (handler r).0 now) all at
          (ground (arith, at.0, b.keeps_id r)) (ground (arith, b.keeps_version r))
          (rw players (b.keeps_keys r at.1)))
]
