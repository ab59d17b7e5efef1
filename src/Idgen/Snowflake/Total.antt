-- ===== src/Idgen/Snowflake/Total.antt =====
-- When `Next` of common/idgen/snowflake.go returns.
use game01_server.Prelude.{
  ℕ, zero, suc, ◌+◌, ◌<◌, ◌≡◌, inl, inr, refl, max, true, Option, none, some, arith,
}
use game01_server.Prelude.Tests.{ltb, Bool-cases, if◌then◌else◌}
use game01_server.Prelude.Maps.{is_some}
use game01_server.Prelude.Int.{ℤ, pos, pos_part, ltb_ℤ}
use game01_server.Idgen.Snowflake.{
  Generator, milli_at, current_milli, wait_next_milli, next, next_at,
}

-- A reading later than `previous`, `d` readings ahead, ends the wait: fuel above `d` is enough.
wait_next_milli_total :
    (clock : ℕ → ℤ) (fuel previous d : ℕ) (g : Generator)
    → previous < milli_at clock g.epoch_milli (g.reads + d)
    → d < fuel
    → (r : ℕ × Generator) × (wait_next_milli clock fuel previous g ≡ some r)
unfolding wait_next_milli current_milli
wait_next_milli_total clock zero previous d g h lt = absurd (omega arith)
wait_next_milli_total clock (suc fuel) previous zero g h lt =
    let e : g.reads + 0 ≡ g.reads = omega arith in
    let now = rw e at h in
    ((milli_at clock g.epoch_milli g.reads, (current_milli clock g).1), ground arith)
wait_next_milli_total clock (suc fuel) previous (suc d) g h lt =
    let e : g.reads + suc d ≡ suc g.reads + d = omega arith in
    let later = rw e at h in
    elim (Bool-cases (ltb previous (milli_at clock g.epoch_milli g.reads))) [
      | inl now ↦ ((milli_at clock g.epoch_milli g.reads, (current_milli clock g).1), rw now refl)
      | inr wait ↦ rw wait (
          wait_next_milli_total clock fuel previous d (current_milli clock g).1 later (omega arith))
    ]

-- The millisecond from which `Next` starts.
abbrev start : (ℕ → ℤ) → Generator → ℕ
start clock g =
    let milli = milli_at clock g.epoch_milli g.reads in
    if ltb_ℤ (pos milli) g.last_milli then pos_part g.last_milli else milli

is_some_value {ℓ} : {A : Type ℓ} (o : Option A) → is_some o ≡ true → (a : A) × (o ≡ some a)
is_some_value none h = cc
is_some_value (some a) h = (a, refl)

next_at-is_some :
    (clock : ℕ → ℤ) (fuel milli : ℕ) (g : Generator) (r : ℕ × Generator)
    → wait_next_milli clock fuel milli g ≡ some r
    → is_some (next_at clock fuel milli g) ≡ true
unfolding next_at
next_at-is_some clock fuel milli g r e = ground arith

-- `Next` returns: if some reading of the clock, the `d`-th after the first, is later than the
-- millisecond that the id would have, then fuel above `d` is enough for the wait.
pub next_total :
    (clock : ℕ → ℤ) (fuel d : ℕ) (g : Generator)
    → max (milli_at clock g.epoch_milli g.reads) (pos_part g.last_milli)
      < milli_at clock g.epoch_milli (suc g.reads + d)
    → d < fuel
    → (r : ℕ × Generator) × (next clock fuel g ≡ some r)
unfolding next current_milli
next_total clock fuel d g h lt =
    let (g', now) =
      (wait_next_milli_total clock fuel (start clock g) d (current_milli clock g).1 (ground arith)
        lt) in
    is_some_value (next clock fuel g)
      (next_at-is_some clock fuel (start clock g) (current_milli clock g).1 g' now)
