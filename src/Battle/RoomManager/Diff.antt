-- ===== src/Battle/RoomManager/Diff.antt =====
-- What a client does with a delta, and that the delta of `recordDeltaLocked`
-- (services/battle/components/room_manager.go) takes the previous room to the current one.
use game01_server.Prelude.{
  ◌≡◌, refl, inl, inr, Bool, false, ◌||◌, Option, none, some, List, [], ◌∷◌, String, arith,
}
use game01_server.Prelude.Tests.{Bool-cases, Option-cases, if◌then◌else◌}
use game01_server.Prelude.Eq.{string_eq, str_eq, eq_iff}
use game01_server.Prelude.Maps.{Map, get, put, del, has, is_some, get-put, get-del}
use game01_server.Battle.Room.{PlayerState, Room, player_eq}
use game01_server.Battle.Room.Laws.{IsKeyed, IsKeyed-tail, Same, Same-trans}
use game01_server.Battle.Delta.{RoomDelta}
use game01_server.Battle.RoomManager.Deltas.{upserts, removals, delta_between}

-- The client's side, which is the meaning of a delta: the players to upsert are stored under their ids,
-- and then the removed ids are deleted.
unfoldable pub upsert_all : Map String PlayerState → List PlayerState → Map String PlayerState
upsert_all m [] = m
upsert_all m (p ∷ ps) = upsert_all (put m p.player_id p) ps

unfoldable pub remove_all : Map String PlayerState → List String → Map String PlayerState
remove_all m [] = m
remove_all m (k ∷ ks) = remove_all (del m k) ks

unfoldable pub apply_delta : RoomDelta → Map String PlayerState → Map String PlayerState
apply_delta d m = remove_all (upsert_all m d.upsert_players) d.removed_player_ids

-- What two rooms show of one player.
abbrev pub Agree : Option PlayerState → Option PlayerState → Type 0
Agree none none = Unit
Agree (some p) (some q) = Same p q
Agree _ _ = ⊥

pub Agree-refl : (o : Option PlayerState) → Agree o o
Agree-refl none = tt
Agree-refl (some p) = inl refl

pub Agree-trans : (a b c : Option PlayerState) → Agree a b → Agree b c → Agree a c
Agree-trans none none none h k = tt
Agree-trans (some p) (some q) (some r) h k = Same-trans p q r h k
Agree-trans none (some q) c h k = absurd h
Agree-trans (some p) none c h k = absurd h
Agree-trans none none (some r) h k = k
Agree-trans (some p) (some q) none h k = k

pub Agree-of_eq : (a b : Option PlayerState) → a ≡ b → Agree a b
Agree-of_eq a b e = rw e (Agree-refl b)

abbrev pub AgreeAll : Map String PlayerState → Map String PlayerState → Type 0
AgreeAll m n = (j : String) → Agree (get m j) (get n j)

-- What a delta records of one player, from the copies in the previous and in the current room.
abbrev recorded : Option PlayerState → Option PlayerState → Option PlayerState
recorded previous none = none
recorded none (some p) = some p
recorded (some old) (some p) = if player_eq old p then none else some p

abbrev pub or_else {ℓ} : {A : Type ℓ} → Option A → Option A → Option A
or_else none o = o
or_else (some a) o = some a

get-upsert_all-upserts :
    (previous m c : Map String PlayerState) (j : String)
    → IsKeyed c
    → get (upsert_all m (upserts previous c)) j
      ≡ or_else (recorded (get previous j) (get c j)) (get m j)
unfolding upsert_all upserts get
get-upsert_all-upserts previous m [] j v = refl
get-upsert_all-upserts previous m ((k, p) ∷ c) j v =
    let (w, e) = IsKeyed-tail k p c v in
    elim (Option-cases (get previous k)) [
      | inl new ↦ ground (
        arith,
        e,
        v.0.0,
        eq_iff k j,
        get-put m p.player_id p j,
        get-upsert_all-upserts previous (put m p.player_id p) c j w,
      )
      | inr (old, was) ↦ ground (
        arith,
        e,
        v.0.0,
        eq_iff k j,
        get-put m p.player_id p j,
        get-upsert_all-upserts previous (put m p.player_id p) c j w,
        get-upsert_all-upserts previous m c j w,
      )
    ]

unfoldable pub mem_of : String → List String → Bool
mem_of j [] = false
mem_of j (k ∷ ks) = str_eq k j || mem_of j ks

pub get-remove_all :
    (m : Map String PlayerState) (ks : List String) (j : String)
    → get (remove_all m ks) j ≡ (if mem_of j ks then none else get m j)
unfolding remove_all mem_of
get-remove_all m [] j = refl
get-remove_all m (k ∷ ks) j = ground (arith, get-remove_all (del m k) ks j, get-del m k j)

mem_of-removals :
    (current p : Map String PlayerState) (j : String)
    → mem_of j (removals current p) ≡ (if has current j then false else has p j)
unfolding mem_of removals has get
mem_of-removals current [] j = ground arith
mem_of-removals current ((k, q) ∷ p) j = ground (arith, mem_of-removals current p j, eq_iff k j)

-- One player, by the copies in the previous and in the current room.
Agree-after :
    (old new : Option PlayerState)
    → Agree
        (if (if is_some new then false else is_some old)
          then none
          else or_else (recorded old new) old)
        new
Agree-after none none = tt
Agree-after (some old) none = tt
Agree-after none (some p) = inl refl
Agree-after (some old) (some p) = elim (Bool-cases (player_eq old p)) [
  | inl same ↦ rw same (inr same)
  | inr differs ↦ rw differs (inl refl)
]

-- The delta of two rooms, the current one with each of its players under the player's own id, takes a client from the
-- players of the previous room to those of the current one: each player is there in both or in neither, and the two
-- copies are the same or equal by the code's `==` (which is no identity for floats: 0 equals -0, and a NaN is unequal
-- to itself and so is sent again).
pub apply_delta-delta_between :
    (previous current : Room)
    → IsKeyed current.players
    → AgreeAll (apply_delta (delta_between previous current) previous.players) current.players
unfolding apply_delta delta_between has
apply_delta-delta_between previous current v j =
    let p = previous.players in
    let c = current.players in
    rw
      (
        get-remove_all (upsert_all p (upserts p c)) (removals c p) j,
        mem_of-removals c p j,
        get-upsert_all-upserts p p c j v,
      )
      (Agree-after (get p j) (get c j))
