-- ===== src/Battle/RoomManager/History.antt =====
-- The deltas that the manager keeps of a room (services/battle/components/room_manager.go): a chain of
-- recorded steps that ends at the room.
use game01_server.Prelude.{ℕ, zero, suc, ◌-◌, ◌≤◌, ◌≡◌, refl, inl, inr, List, [], ◌∷◌, ◌++◌, arith}
use game01_server.Prelude.Lists.{length, drop}
use game01_server.Prelude.Tests.{ltb, Bool-cases}
use game01_server.Battle.Room.{Room}
use game01_server.Battle.Room.Laws.{IsKeyed}
use game01_server.Battle.Delta.{RoomDelta}
use game01_server.Battle.RoomManager.Deltas.{delta_between, trim}

-- `Linked r ds r'`: the deltas, oldest first, were recorded on the way from `r` to `r'`, each for one step of
-- the state version.
pub data Linked : Room → List RoomDelta → Room → Type 0 where
  done : {r : Room} → Linked r [] r
  step :
      {r s t : Room} {ds : List RoomDelta} (d : RoomDelta)
      → d ≡ delta_between r s
      → s.state_version ≡ suc r.state_version
      → s.id ≡ r.id
      → IsKeyed s.players
      → Linked s ds t
      → Linked r (d ∷ ds) t

pub Linked-append :
    {r s t : Room} {ds es : List RoomDelta} → Linked r ds s → Linked s es t → Linked r (ds ++ es) t
Linked-append done m = m
Linked-append (step d e v i k l) m = step d e v i k (Linked-append l m)

-- The chain that is left where the oldest deltas are dropped.
pub Linked-drop :
    {r t : Room} {ds : List RoomDelta} (n : ℕ) → Linked r ds t → (s : Room) × Linked s (drop n ds) t
Linked-drop {r} zero l = (r, l)
Linked-drop {r} (suc n) done = (r, done)
Linked-drop (suc n) (step d e v i k l) = Linked-drop n l

pub Linked-trim :
    {r t : Room} {ds : List RoomDelta} (size : ℕ)
    → Linked r ds t
    → (s : Room) × Linked s (trim size ds) t
unfolding trim
Linked-trim {r} {t} {ds} size l = elim (Bool-cases (ltb size (length ds))) [
  | inl long ↦ rw long (Linked-drop (length ds - size) l)
  | inr short ↦ rw short (r, l)
]

pub Linked-le :
    {r t : Room} {ds : List RoomDelta} → Linked r ds t → r.state_version ≤ t.state_version
Linked-le done = omega arith
Linked-le (step d e v i k l) = omega (arith, Linked-le l)

pub Linked-id : {r t : Room} {ds : List RoomDelta} → Linked r ds t → r.id ≡ t.id
Linked-id done = refl
Linked-id (step d e v i k l) = ground (arith, Linked-id l)

-- A chain that does not raise the version has no step.
pub Linked-eq :
    {r t : Room} {ds : List RoomDelta} → Linked r ds t → r.state_version ≡ t.state_version → r ≡ t
Linked-eq done h = refl
Linked-eq (step d e v i k l) h = absurd (omega (arith, Linked-le l))
