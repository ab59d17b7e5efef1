-- ===== src/Battle/RoomManager/Failure.antt =====
-- The error paths of `Mutate` (services/battle/components/room_manager.go).
use game01_server.Prelude.{
  ℕ, ◌≡◌, ◌≢◌, refl, subst, ap, sym, ◌∙◌, ◌⊎◌, true, Option, none, some, List, [], ◌∷◌, ◌++◌,
  String, arith,
}
use game01_server.Prelude.Eq.{nat_eq, string_eq, eq_iff}
use game01_server.Prelude.Maps.{Map, get, put, has, get-put_self, Distinct}
use game01_server.Battle.Room.{Error, PlayerState, Room, player_eq, advance_tick}
use game01_server.Battle.Delta.{RoomDelta}
use game01_server.Battle.RoomManager.{
  RoomManager, or_nil, deltas_of, mutate, save_locked, record_delta_locked,
}
use game01_server.Battle.RoomManager.Deltas.{upserts, removals, delta_between, trim}
use game01_server.Battle.RoomManager.Diff.{apply_delta, upsert_all, remove_all, Agree, AgreeAll}

-- If a call of `Mutate` on a room that is there returns an error, no delta is recorded; and either that error is the
-- handler's, and the room keeps what the handler had changed by then, or the handler returned none (the tick was
-- refused, or the room could not be saved) and the room is as it was before the call.
pub mutate_failed :
    (m : RoomManager) (save : Option (Room → Option Error)) (now id : ℕ)
    (handler : Room → Room × Option Error) (r : Room) (e : Error)
    → id ≢ 0
    → get m.rooms id ≡ some r
    → (mutate m save now id handler).1 ≡ some e
    → let m' = (mutate m save now id handler).0 in
      (m'.deltas ≡ m.deltas)
      × ((((handler r).1 ≡ some e) × (get m'.rooms id ≡ some (handler r).0))
          ⊎ (((handler r).1 ≡ none) × (get m'.rooms id ≡ some r)))
unfolding mutate
mutate_failed m save now id handler r e named there failed =
    ground (arith, get-put_self m.rooms id (handler r).0, get-put_self m.rooms id r)

handler_failed :
    (m : RoomManager) (save : Option (Room → Option Error)) (now id : ℕ)
    (handler : Room → Room × Option Error) (r : Room) (e : Error)
    → id ≢ 0
    → get m.rooms id ≡ some r
    → (handler r).1 ≡ some e
    → let m' = (mutate m save now id handler).0 in
      (get m'.rooms id ≡ some (handler r).0) × (m'.deltas ≡ m.deltas)
unfolding mutate
handler_failed m save now id handler r e named there failed =
    ground (arith, get-put_self m.rooms id (handler r).0)

-- No coordinate of a player is NaN, so that each player is equal to itself.
abbrev pub IsComparable : Map String PlayerState → Type 0
IsComparable m = (k : String) (p : PlayerState) → get m k ≡ some p → player_eq p p ≡ true

upserts_same :
    (previous c : Map String PlayerState)
    → Distinct c
    → IsComparable c
    → ((k : String) (p : PlayerState) → get c k ≡ some p → get previous k ≡ some p)
    → upserts previous c ≡ []
unfolding upserts get
upserts_same previous [] d refl_all sub = refl
upserts_same previous ((k, p) ∷ c) d refl_all sub =
    let at : get ((k, p) ∷ c) k ≡ some p = ground (arith, eq_iff k k) in
    let rest =
      upserts_same previous c d.1 (λ j q e. refl_all j q (ground (arith, eq_iff k j, d.0)))
        (λ j q e. sub j q (ground (arith, eq_iff k j, d.0))) in
    ground (arith, sub k p at, refl_all k p at, rest)

removals_same :
    (current c : Map String PlayerState)
    → ((k : String) → has c k ≡ true → has current k ≡ true)
    → removals current c ≡ []
unfolding removals has get
removals_same current [] sub = refl
removals_same current ((k, p) ∷ c) sub =
    let rest = removals_same current c (λ j h. sub j (ground (arith, eq_iff k j))) in
    ground (arith, sub k (ground (arith, eq_iff k k)), rest)

-- Between two rooms with the same players a delta records nothing.
same_players :
    (r t : Room) (held : Map String PlayerState)
    → Distinct t.players
    → IsComparable t.players
    → t.players ≡ r.players
    → apply_delta (delta_between r t) held ≡ held
unfolding apply_delta delta_between upsert_all remove_all
same_players r t held d c same = rw (
  upserts_same r.players t.players d c (λ k p e. subst (λ m. get m k ≡ some p) same e),
  removals_same t.players r.players (λ k h. subst (λ m. has m k ≡ true) (sym same) h),
)

abbrev pub no_change : Room → Room × Option Error
no_change r = (r, none)

tick_players :
    (r : Room) (now : ℕ)
    → ((advance_tick r now).0.players ≡ r.players) × ((advance_tick r now).0.id ≡ r.id)
unfolding advance_tick
tick_players r now = ground arith

no_change_stores :
    (m : RoomManager) (save : Option (Room → Option Error)) (now id : ℕ) (r : Room)
    → id ≢ 0
    → get m.rooms id ≡ some r
    → (advance_tick r now).1 ≡ none
    → save_locked save (advance_tick r now).0 ≡ none
    → (mutate m save now id no_change).0
      ≡ record_delta_locked
          (record m { rooms = put m.rooms id (advance_tick r now).0 })
          r
          (advance_tick r now).0
unfolding mutate
no_change_stores m save now id r named there valid saved = ground arith

-- A call with a handler that changes nothing stores the ticked room and one more delta.
mutate-no_change :
    (m : RoomManager) (save : Option (Room → Option Error)) (now id : ℕ) (r : Room)
    → id ≢ 0
    → get m.rooms id ≡ some r
    → r.id ≡ id
    → (advance_tick r now).1 ≡ none
    → save_locked save (advance_tick r now).0 ≡ none
    → let m' = (mutate m save now id no_change).0 in
      (get m'.rooms id ≡ some (advance_tick r now).0)
      × (deltas_of m'.deltas id
          ≡ trim m.delta_size
              (deltas_of m.deltas id ++ delta_between r (advance_tick r now).0 ∷ []))
unfolding record_delta_locked
mutate-no_change m save now id r named there own valid saved =
    let t : Room = (advance_tick r now).0 in
    let ds : ℕ → List RoomDelta =
      λ i. trim m.delta_size (deltas_of m.deltas i ++ delta_between r t ∷ []) in
    let same : t.id ≡ id = (tick_players r now).1 ∙ own in
    rw (no_change_stores m save now id r named there valid saved) (
      get-put_self m.rooms id t,
      subst (λ k. deltas_of (put m.deltas k (ds k)) id ≡ ds id) (sym same)
          (ap or_nil (get-put_self m.deltas id (ds id))),
    )

-- The change of a failed handler is lost to the clients that take deltas. Let a handler fail after it changed what
-- the room shows of the player `j`, and let the next call succeed, with a handler that changes nothing. Then the
-- manager's room shows the change, and the only delta recorded since leaves a client, who holds the players from
-- before both calls, with a copy of `j` that differs from the room's.
pub failed_change_lost :
    (m : RoomManager) (save : Option (Room → Option Error)) (now id : ℕ) (r : Room) (e : Error)
    (handler : Room → Room × Option Error) (j : String)
    → id ≢ 0
    → get m.rooms id ≡ some r
    → (handler r).1 ≡ some e
    → (handler r).0.id ≡ id
    → (advance_tick (handler r).0 now).1 ≡ none
    → save_locked save (advance_tick (handler r).0 now).0 ≡ none
    → Distinct (handler r).0.players
    → IsComparable (handler r).0.players
    → ¬ Agree (get r.players j) (get (handler r).0.players j)
    → let t = (advance_tick (handler r).0 now).0 in
      let d = delta_between (handler r).0 t in
      let m₁ = (mutate m save now id handler).0 in
      let m₂ = (mutate m₁ save now id no_change).0 in
      (get m₂.rooms id ≡ some t)
      × (deltas_of m₂.deltas id ≡ trim m₁.delta_size (deltas_of m.deltas id ++ d ∷ []))
      × (¬ AgreeAll (apply_delta d r.players) t.players)
failed_change_lost m save now id r e handler j named there failed own valid saved dist comp differ =
    let r' : Room = (handler r).0 in
    let (kept, same) = handler_failed m save now id handler r e named there failed in
    let (stored, recorded) =
      mutate-no_change (mutate m save now id handler).0 save now id r' named kept own valid saved in
    let players = (tick_players r' now).0 in
    let nothing =
      same_players r' (advance_tick r' now).0 r.players (rw players dist) (rw players comp)
        players in
    (
      stored,
      recorded
          ∙ ap
              (λ (ds : Map ℕ (List RoomDelta)).
                trim (mutate m save now id handler).0.delta_size
                  (deltas_of ds id ++ delta_between r' (advance_tick r' now).0 ∷ []))
              same,
      λ all. differ (
          subst (λ ps. Agree (get r.players j) (get ps j)) players
            (subst (λ ps. Agree (get ps j) (get (advance_tick r' now).0.players j)) nothing
              (all j))),
    )
