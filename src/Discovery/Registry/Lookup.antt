-- ===== src/Discovery/Registry/Lookup.antt =====
-- What `Discover` of common/discovery/static/registry.go finds.
use game01_server.Prelude.{
  ◌≡◌, ◌⊎◌, ◌∙◌, inl, inr, sym, ap, none, some, List, [], ◌∷◌, String, arith,
}
use game01_server.Prelude.Tests.{Bool-cases}
use game01_server.Prelude.Eq.{str_eq, string_eq, eq_iff}
use game01_server.Prelude.Lists.{All}
use game01_server.Prelude.Maps.{Map, get, put, del, get-put_self, get-del_self}
use game01_server.Discovery.Registry.{
  Registration, Registry, key_of, register_item, close_item, discover_in, discover,
}

abbrev pub Holds : Registration → List Registration → Type 0
Holds r [] = ⊥
Holds r (x ∷ xs) = (x ≡ r) ⊎ Holds r xs

-- What stands under a key is found by its service.
discover_in-Holds :
    (m : Map String Registration) (k : String) (r : Registration)
    → get m k ≡ some r
    → Holds r (discover_in m r.service)
unfolding discover_in get
discover_in-Holds [] k r h = absurd (ground (arith, h))
discover_in-Holds ((j, item) ∷ rest) k r h = elim (Bool-cases (str_eq j k)) [
  | inl here ↦
      let same : item ≡ r = ground (arith, here, h) in
      rw (discover_in, (eq_iff item.service r.service).1 (ap (λ x. x.service) same)) (inl same)
  | inr elsewhere ↦
      let later = discover_in-Holds rest k r (ground (arith, elsewhere, h)) in
      elim (Bool-cases (str_eq item.service r.service)) [
        | inl alike ↦ rw (discover_in, alike) (inr later)
        | inr other ↦ rw (discover_in, other) later
      ]
]

discover_in-service :
    (service : String) (m : Map String Registration)
    → All (λ x. x.service ≡ service) (discover_in m service)
unfolding discover_in
discover_in-service service [] = tt
discover_in-service service ((j, item) ∷ rest) = elim (Bool-cases (str_eq item.service service)) [
  | inl alike ↦
      rw (discover_in, alike)
        ((eq_iff item.service service).0 alike, discover_in-service service rest)
  | inr other ↦ rw (discover_in, other) (discover_in-service service rest)
]

-- `Discover` finds an instance as soon as it has been registered, with the address it gave, and finds instances of the
-- service only.
pub register_item-discover :
    (r : Registry) (item : Registration)
    → Holds item (discover (register_item r item) item.service)
      × All (λ x. x.service ≡ item.service) (discover (register_item r item) item.service)
unfolding discover register_item
register_item-discover r item = (
  discover_in-Holds (put r.items (key_of item) item) (key_of item) item
      (get-put_self r.items (key_of item) item),
  discover_in-service item.service (put r.items (key_of item) item),
)

-- The function that `Register` returned for an item removes what stands under the item's key, also where that is a later
-- registration of the same instance.
pub close_item-register_item :
    (r : Registry) (old new : Registration)
    → key_of old ≡ key_of new
    → get (close_item (register_item (register_item r old) new) old).items (key_of new) ≡ none
unfolding close_item register_item
close_item-register_item r old new same =
    ap (λ k. get (del (put (put r.items (key_of old) old) (key_of new) new) (key_of old)) k)
      (sym same)
    ∙ get-del_self (put (put r.items (key_of old) old) (key_of new) new) (key_of old)
