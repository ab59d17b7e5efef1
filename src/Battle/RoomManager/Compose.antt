-- ===== src/Battle/RoomManager/Compose.antt =====
-- What `composeDeltas` gathers (services/battle/components/room_manager.go) is what applying the
-- deltas one after another gives.
use game01_server.Prelude.{
  ◌≡◌, refl, inl, inr, Bool, true, Option, none, List, [], ◌∷◌, String, arith,
}
use game01_server.Prelude.Tests.{Bool-cases, if◌then◌else◌}
use game01_server.Prelude.Eq.{string_eq, str_eq, eq_iff}
use game01_server.Prelude.Maps.{Map, get, put, del, has, get-put, get-del, del-Distinct}
use game01_server.Battle.Room.{PlayerState}
use game01_server.Battle.Room.Laws.{IsKeyed, IsKeyed-tail, put-IsKeyed}
use game01_server.Battle.Delta.{RoomDelta}
use game01_server.Battle.RoomManager.Deltas.{
  Composed, absorb, absorb_upsert, absorb_removal, absorb_upserts, absorb_removals, values, keys,
}
use game01_server.Battle.RoomManager.Diff.{
  upsert_all, remove_all, apply_delta, AgreeAll, or_else, mem_of, get-remove_all,
}

-- What the loop's two maps make of one player of the base room.
abbrev pub overlay : Option PlayerState → Bool → Option PlayerState → Option PlayerState
overlay upserted removed base = or_else upserted (if removed then none else base)

-- Over the base, the maps show the players of `m`.
abbrev pub Shows : Composed → Map String PlayerState → Map String PlayerState → Type 0
Shows s base m = (j : String) → overlay (get s.players j) (has s.removed j) (get base j) ≡ get m j

-- No player is in both maps, and each stands under its own id.
pub record IsSound (s : Composed) : Type 0 where
  pub keyed : IsKeyed s.players
  pub apart : (j : String) → has s.removed j ≡ true → get s.players j ≡ none

del-IsKeyed : (m : Map String PlayerState) (k : String) → IsKeyed m → IsKeyed (del m k)
del-IsKeyed m k (d, keyed) = (del-Distinct m k d, λ j q e. ground (arith, get-del m k j, keyed j q))

absorb_upserts-IsSound :
    (s : Composed) (ps : List PlayerState) → IsSound s → IsSound (absorb_upserts s ps)
unfolding absorb_upserts has
absorb_upserts-IsSound s [] v = v
absorb_upserts-IsSound s (p ∷ ps) v = absorb_upserts-IsSound (absorb_upsert s p) ps (record {
  keyed = put-IsKeyed s.players p v.keyed;
  apart = λ j h.
      ground (arith, get-put s.players p.player_id p j, get-del s.removed p.player_id j, v.apart j);
})

absorb_removals-IsSound :
    (s : Composed) (ks : List String) → IsSound s → IsSound (absorb_removals s ks)
unfolding absorb_removals has
absorb_removals-IsSound s [] v = v
absorb_removals-IsSound s (k ∷ ks) v = absorb_removals-IsSound (absorb_removal s k) ks (record {
  keyed = del-IsKeyed s.players k v.keyed;
  apart = λ j h. ground (arith, get-del s.players k j, get-put s.removed k tt j, v.apart j);
})

pub absorb-IsSound : (s : Composed) (d : RoomDelta) → IsSound s → IsSound (absorb s d)
unfolding absorb
absorb-IsSound s d v =
    let w =
      absorb_removals-IsSound _ d.removed_player_ids
        (absorb_upserts-IsSound s d.upsert_players v) in
    record { keyed = w.keyed; apart = w.apart }

module _ (base : Map String PlayerState) where
  absorb_upserts-Shows :
      (s : Composed) (ps : List PlayerState) (m : Map String PlayerState)
      → Shows s base m
      → Shows (absorb_upserts s ps) base (upsert_all m ps)
  unfolding absorb_upserts upsert_all has
  absorb_upserts-Shows s [] m h = h
  absorb_upserts-Shows s (p ∷ ps) m h =
      absorb_upserts-Shows (absorb_upsert s p) ps (put m p.player_id p) λ j. ground (
        arith,
        h j,
        get-put s.players p.player_id p j,
        get-put m p.player_id p j,
        get-del s.removed p.player_id j,
      )

  absorb_removals-Shows :
      (s : Composed) (ks : List String) (m : Map String PlayerState)
      → Shows s base m
      → Shows (absorb_removals s ks) base (remove_all m ks)
  unfolding absorb_removals remove_all has
  absorb_removals-Shows s [] m h = h
  absorb_removals-Shows s (k ∷ ks) m h =
      absorb_removals-Shows (absorb_removal s k) ks (del m k)
        λ j. ground (arith, h j, get-del s.players k j, get-del m k j, get-put s.removed k tt j)

  pub absorb-Shows :
      (s : Composed) (d : RoomDelta) (m : Map String PlayerState)
      → Shows s base m
      → Shows (absorb s d) base (apply_delta d m)
  unfolding absorb apply_delta
  absorb-Shows s d m h =
      absorb_removals-Shows (absorb_upserts s d.upsert_players) d.removed_player_ids
        (upsert_all m d.upsert_players) (absorb_upserts-Shows s d.upsert_players m h)

mem_of-keys : (m : Map String (Unit {0})) (j : String) → mem_of j (keys m) ≡ has m j
unfolding mem_of has get
mem_of-keys [] j = refl
mem_of-keys ((k, x) ∷ m) j = ground (arith, mem_of-keys m j)

-- The values of a map, stored again, cover what stands below.
get-upsert_all-values :
    (ps m : Map String PlayerState) (j : String)
    → IsKeyed ps
    → get (upsert_all m (values ps)) j ≡ or_else (get ps j) (get m j)
unfolding upsert_all get
get-upsert_all-values [] m j v = refl
get-upsert_all-values ((k, p) ∷ ps) m j v =
    let (w, e) = IsKeyed-tail k p ps v in
    ground (
      arith,
      e,
      v.0.0,
      eq_iff k j,
      get-put m p.player_id p j,
      get-upsert_all-values ps (put m p.player_id p) j w,
    )

-- Applied to the base, the combined delta gives what the maps show.
pub apply_delta-combined :
    (s : Composed) (d : RoomDelta) (base m : Map String PlayerState)
    → IsSound s
    → Shows s base m
    → d.upsert_players ≡ values s.players
    → d.removed_player_ids ≡ keys s.removed
    → (j : String) → get (apply_delta d base) j ≡ get m j
unfolding apply_delta
apply_delta-combined s d base m v h eu er j =
    rw
      (
        eu,
        er,
        get-remove_all (upsert_all base (values s.players)) (keys s.removed) j,
        mem_of-keys s.removed j,
        get-upsert_all-values s.players base j v.keyed,
      )
      (ground (arith, h j, v.apart j))

upsert_all-AgreeAll :
    (m n : Map String PlayerState) (ps : List PlayerState)
    → AgreeAll m n
    → AgreeAll (upsert_all m ps) (upsert_all n ps)
unfolding upsert_all
upsert_all-AgreeAll m n [] h = h
upsert_all-AgreeAll m n (p ∷ ps) h =
    upsert_all-AgreeAll (put m p.player_id p) (put n p.player_id p) ps λ j.
      rw (get-put m p.player_id p j, get-put n p.player_id p j)
        (elim (Bool-cases (str_eq p.player_id j)) [
          | inl same ↦ rw same (inl refl)
          | inr differ ↦ rw differ (h j)
        ])

remove_all-AgreeAll :
    (m n : Map String PlayerState) (ks : List String)
    → AgreeAll m n
    → AgreeAll (remove_all m ks) (remove_all n ks)
unfolding remove_all
remove_all-AgreeAll m n [] h = h
remove_all-AgreeAll m n (k ∷ ks) h = remove_all-AgreeAll (del m k) (del n k) ks λ j.
    rw (get-del m k j, get-del n k j)
      (elim (Bool-cases (str_eq k j)) [ inl same ↦ rw same tt | inr differ ↦ rw differ (h j) ])

-- A delta keeps two copies of the players in agreement.
pub apply_delta-AgreeAll :
    (d : RoomDelta) (m n : Map String PlayerState)
    → AgreeAll m n
    → AgreeAll (apply_delta d m) (apply_delta d n)
unfolding apply_delta
apply_delta-AgreeAll d m n h =
    remove_all-AgreeAll (upsert_all m d.upsert_players) (upsert_all n d.upsert_players)
      d.removed_player_ids (upsert_all-AgreeAll m n d.upsert_players h)
