-- ===== src/Idgen/Snowflake/Examples.antt =====
-- Ids of common/idgen/snowflake.go on concrete clocks.
use game01_server.Prelude.{ℕ, zero, suc, ◌+◌, ◌<◌, ◌≡◌, max, refl, some, [], ◌∷◌, arith}
use game01_server.Prelude.Int.{ℤ, pos, negsuc, ◌+ℤ◌, ◌-ℤ◌}
use game01_server.Idgen.Snowflake.{
  Generator, new_with_clock, milli_at, pack, next, parse, current_milli,
}
use game01_server.Idgen.Snowflake.RoundTrip.{parse-pack}
use game01_server.Idgen.Snowflake.Order.{IsSound, Rises, next_ids, next_ids-Rises}
use game01_server.Idgen.Snowflake.Total.{next_total}

abbrev fresh : Generator
fresh = record {
  node_id = 3;
  epoch_milli = pos 1000;
  last_milli = negsuc 0;
  sequence = 0;
  reads = 0;
}

fresh_new : new_with_clock 3 (pos 1000) ≡ some fresh
unfolding new_with_clock
fresh_new = refl

-- It goes back by 2 after the second reading.
abbrev stepping : ℕ → ℤ
stepping zero = pos 1007
stepping (suc zero) = pos 1007
stepping (suc (suc n)) = pos (1005 + n)

parse-pack_example :
    parse fresh (pack 7 3 1)
    ≡ record { timestamp = fresh.epoch_milli +ℤ pos 7; node_id = 3; sequence = 1 }
parse-pack_example = parse-pack fresh 7 3 1 (omega arith) (omega arith) (omega arith)

fresh-IsSound : IsSound fresh
fresh-IsSound = ground arith

abbrev after_three : Generator
after_three = record fresh { last_milli = pos 7; sequence = 2; reads = 3 }

three : next_ids stepping 1 3 fresh ≡ some (pack 7 3 0 ∷ pack 7 3 1 ∷ pack 7 3 2 ∷ [], after_three)
unfolding next_ids next milli_at current_milli ◌-ℤ◌
three = refl

next_ids-Rises_example : Rises 0 (pack 7 3 0 ∷ pack 7 3 1 ∷ pack 7 3 2 ∷ [])
next_ids-Rises_example =
    next_ids-Rises stepping 1 3 fresh (pack 7 3 0 ∷ pack 7 3 1 ∷ pack 7 3 2 ∷ []) after_three
      fresh-IsSound three (omega arith)

-- The numbers of millisecond 7 are used up.
abbrev exhausted : Generator
exhausted = record fresh { last_milli = pos 7; sequence = 4095; reads = 1 }

soon_later :
    max (milli_at stepping exhausted.epoch_milli 1) 7
    < milli_at stepping exhausted.epoch_milli (2 + 3)
unfolding milli_at ◌-ℤ◌
soon_later = omega arith

next_total_example : (r : ℕ × Generator) × (next stepping 4 exhausted ≡ some r)
next_total_example = next_total stepping 4 3 exhausted soon_later (omega arith)
