-- ===== src/Idgen/Snowflake/Order.antt =====
-- The ids of one generator (common/idgen/snowflake.go) rise strictly, whatever its clock does.
use game01_server.Prelude.{
  ℕ, zero, suc, ◌+◌, ◌*◌, ◌^◌, ◌<◌, ◌≤◌, ◌≡◌, ◌⊎◌, inl, inr, Option, none, some, List, [], ◌∷◌,
  arith, ◌∙◌, subst,
}
use game01_server.Prelude.Tests.{Option-cases}
use game01_server.Prelude.Int.{ℤ, pos, negsuc, pos_part}
use game01_server.Idgen.Snowflake.{
  Generator, new_with_clock, current_milli, wait_next_milli, pack, next, next_at,
}
use game01_server.Idgen.Snowflake.RoundTrip.{pack_sum}

-- `lastMilli` is -1 before the first id, and a time that was read later.
pub record IsSound (g : Generator) : Type 0 where
  pub node : g.node_id < 1024
  pub seq : g.sequence < 4096
  pub last : (g.last_milli ≡ negsuc 0) ⊎ (g.last_milli ≡ pos (pos_part g.last_milli))

pub new_with_clock-IsSound :
    (node_id : ℕ) (epoch : ℤ) (g : Generator) → new_with_clock node_id epoch ≡ some g → IsSound g
unfolding new_with_clock
new_with_clock-IsSound node_id epoch g e = ground arith

-- The later generator made its id after the earlier one made its own: the pair of the millisecond and
-- the sequence number is larger.
abbrev pub Later : Generator → Generator → Type 0
Later g h =
    (g.node_id ≡ h.node_id)
    × (h.last_milli ≡ pos (pos_part h.last_milli))
    × ((g.last_milli ≡ negsuc 0)
        ⊎ (pos_part g.last_milli < pos_part h.last_milli)
        ⊎ ((pos_part g.last_milli ≡ pos_part h.last_milli) × (g.sequence < h.sequence)))

module _ (clock : ℕ → ℤ) where
  wait_next_milli_lem :
      (fuel previous : ℕ) (g : Generator) (milli : ℕ) (h : Generator)
      → wait_next_milli clock fuel previous g ≡ some (milli, h)
      → (previous < milli)
        × (h.node_id ≡ g.node_id)
        × (h.last_milli ≡ g.last_milli)
        × (h.sequence ≡ g.sequence)
        × (h.epoch_milli ≡ g.epoch_milli)
  unfolding wait_next_milli current_milli
  wait_next_milli_lem zero previous g milli h e = cc
  wait_next_milli_lem (suc fuel) previous g milli h e =
      ground (arith, wait_next_milli_lem fuel previous (current_milli clock g).1 milli h)

  next_at_lem :
      (fuel milli : ℕ) (g : Generator) (id : ℕ) (h : Generator)
      → IsSound g
      → (g.last_milli ≡ negsuc 0) ⊎ (pos_part g.last_milli ≤ milli)
      → next_at clock fuel milli g ≡ some (id, h)
      → Later g h × IsSound h × (id ≡ pack (pos_part h.last_milli) h.node_id h.sequence)
  unfolding next_at
  next_at_lem fuel milli g id h v le e = elim (Option-cases (wait_next_milli clock fuel milli g)) [
    | inl w ↦ ground arith
    | inr ((m, g'), w) ↦ ground (arith, wait_next_milli_lem fuel milli g m g' w)
  ]

  next_lem :
      (fuel : ℕ) (g : Generator) (id : ℕ) (h : Generator)
      → IsSound g
      → next clock fuel g ≡ some (id, h)
      → Later g h × IsSound h × (id ≡ pack (pos_part h.last_milli) h.node_id h.sequence)
  unfolding next current_milli
  next_lem fuel g id h v e =
      next_at_lem fuel _ (current_milli clock g).1 id h (ground arith) (ground arith) e

  -- A row of calls of `Next`, one after another; `none` if one runs out of fuel.
  unfoldable pub next_ids : ℕ → ℕ → Generator → Option (List ℕ × Generator)
  next_ids fuel zero g = some ([], g)
  next_ids fuel (suc n) g = elim (next clock fuel g) [
    | none ↦ none
    | some (id, h) ↦ elim (next_ids fuel n h) [ none ↦ none | some (ids, k) ↦ some (id ∷ ids, k) ]
  ]

-- Each number is larger than the one before, and the first at least `b`.
abbrev pub Rises : ℕ → List ℕ → Type 0
Rises b [] = Unit
Rises b (x ∷ xs) = (b ≤ x) × Rises (suc x) xs

abbrev packed : Generator → ℕ
packed g = (pos_part g.last_milli * 1024 + g.node_id) * 4096 + g.sequence

-- The least id that may follow.
abbrev floor : Generator → ℕ
floor g = elim g.last_milli [ pos _ ↦ suc (packed g) | negsuc _ ↦ 0 ]

Later-packed : (g h : Generator) → IsSound g → IsSound h → Later g h → floor g ≤ packed h
Later-packed g h v w l = ground arith

Later-le : (g h : Generator) → Later g h → pos_part g.last_milli ≤ pos_part h.last_milli
Later-le g h l = ground arith

module _ (clock : ℕ → ℤ) where
  next_ids_step :
      (fuel n : ℕ) (g : Generator) (ids : List ℕ) (last : Generator)
      → next_ids clock fuel (suc n) g ≡ some (ids, last)
      → (id : ℕ) × (h : Generator) × (rest : List ℕ) × (next clock fuel g ≡ some (id, h))
        × (next_ids clock fuel n h ≡ some (rest, last))
        × (ids ≡ id ∷ rest)
  unfolding next_ids
  next_ids_step fuel n g ids last e = elim (Option-cases (next clock fuel g)) [
    | inl none_left ↦ ground arith
    | inr ((id, h), first) ↦ elim (Option-cases (next_ids clock fuel n h)) [
      | inl none_left ↦ ground arith
      | inr ((rest, k), later) ↦ (id, h, rest, first, ground arith, ground arith)
    ]
  ]

  rise :
      (g h : Generator) (id : ℕ) (rest : List ℕ) (top : ℕ)
      → IsSound g
      → Later g h × IsSound h × (id ≡ pack (pos_part h.last_milli) h.node_id h.sequence)
      → top < 2 ^ 42
      → Rises (floor h) rest × (pos_part h.last_milli ≤ top)
      → Rises (floor g) (id ∷ rest) × (pos_part g.last_milli ≤ top)
  rise g h id rest top v (l, w, e) lt (r, le) =
      let sum = pack_sum (pos_part h.last_milli) h.node_id h.sequence (omega arith) w.node w.seq in
      let same : id ≡ packed h = e ∙ sum in
      let start : floor h ≡ suc id = ground (arith, l.1) in
      (
        (rw same (Later-packed g h v w l), subst (λ b. Rises b rest) start r),
        omega (arith, Later-le g h l),
      )

  next_ids-Rises_from :
      (fuel n : ℕ) (g : Generator) (ids : List ℕ) (last : Generator)
      → IsSound g
      → next_ids clock fuel n g ≡ some (ids, last)
      → pos_part last.last_milli < 2 ^ 42
      → Rises (floor g) ids × (pos_part g.last_milli ≤ pos_part last.last_milli)
  unfolding next_ids
  next_ids-Rises_from fuel zero g ids last v e lt = ground arith
  next_ids-Rises_from fuel (suc n) g ids last v e lt =
      let (id, h, rest, first, later, split) = next_ids_step fuel n g ids last e in
      let one = next_lem clock fuel g id h v first in
      rw split (
        rise g h id rest (pos_part last.last_milli) v one lt
          (next_ids-Rises_from fuel n h rest last one.1 later lt))

Rises-zero : (b : ℕ) (xs : List ℕ) → Rises b xs → Rises 0 xs
Rises-zero b [] r = tt
Rises-zero b (x ∷ xs) r = (omega arith, r.1)

-- The ids of any row of calls on a sound generator rise strictly: also when the clock stands still or
-- runs backwards, and when a millisecond's sequence numbers run out. (Up to a last millisecond
-- below 2 ^ 42 from the epoch, where the shift of `Next` would lose bits.)
pub next_ids-Rises :
    (clock : ℕ → ℤ) (fuel n : ℕ) (g : Generator) (ids : List ℕ) (last : Generator)
    → IsSound g
    → next_ids clock fuel n g ≡ some (ids, last)
    → pos_part last.last_milli < 2 ^ 42
    → Rises 0 ids
next_ids-Rises clock fuel n g ids last v e lt =
    Rises-zero (floor g) ids (next_ids-Rises_from clock fuel n g ids last v e lt).0
