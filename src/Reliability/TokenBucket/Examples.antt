-- ===== src/Reliability/TokenBucket/Examples.antt =====
-- Runs of the token bucket of common/reliability/token_bucket.go, with whole numbers for its tokens.
use game01_server.Prelude.{
  ℕ, ◌+◌, ◌-◌, ◌*◌, ◌/◌, ◌≤◌, ◌≡◌, ◌⊎◌, refl, Bool, true, Option, some, [], ◌∷◌, arith,
}
use game01_server.Prelude.Int.{pos, negsuc}
use game01_server.Prelude.Tests.{leb}
use game01_server.Reliability.TokenBucket.{
  Float, IsLawful, Bucket, new_token_bucket, refill, allow_n, wait,
}
use game01_server.Reliability.TokenBucket.Laws.{
  IsFilled, allow_n_lem, after_calls, after_calls-IsFilled, wait_total,
}

-- Tokens that are counted whole, with whole seconds.
abbrev whole : Float
whole = record {
  Num = ℕ;
  of_int = λ n. n;
  add = λ a b. a + b;
  sub = λ a b. a - b;
  mul = λ a b. a * b;
  leb_num = leb;
  seconds = λ n. n / 1_000_000_000;
}

whole-IsLawful : IsLawful whole
whole-IsLawful = record {
  total = λ a b. ground arith;
  trans = λ a b c h k. ground arith;
  of_int_nonneg = λ n. ground arith;
  seconds_nonneg = λ n. ground arith;
  add_grows = λ a b h. ground arith;
  mul_nonneg = λ a b h k. ground arith;
  sub_nonneg = λ a b h. ground arith;
  sub_shrinks = λ a b h. ground arith;
}

-- Five tokens of ten, two more each second.
abbrev half_full : Bucket whole
half_full = record { capacity = 10; rate = 2; tokens = 5; last = 0; observer = true }

half_full-IsFilled : IsFilled whole half_full
half_full-IsFilled = ground arith

allow_n_lem_example :
    (b' : Bucket whole) × ((allow_n whole (some half_full) (pos 7) 1_000_000_000).0 ≡ some b')
    × IsFilled whole b'
    × (b'.capacity ≡ 10)
    × (0 ≤ b'.last)
    × ((allow_n whole (some half_full) (pos 7) 1_000_000_000).1
        ≡ leb 7 (refill whole half_full 1_000_000_000).tokens)
    × (((allow_n whole (some half_full) (pos 7) 1_000_000_000).1 ≡ true) ⊎ (leb 5 b'.tokens ≡ true))
allow_n_lem_example = allow_n_lem whole whole-IsLawful half_full 6 1_000_000_000 half_full-IsFilled

after_calls-IsFilled_example : IsFilled whole (
    after_calls whole whole-IsLawful
      (new_token_bucket whole (pos 10) 2 0 true)
      ((pos 7, 0) ∷ (negsuc 0, 5) ∷ (pos 4, 2_000_000_000) ∷ (pos 4, 1) ∷ []))
after_calls-IsFilled_example =
    after_calls-IsFilled whole whole-IsLawful (pos 10) 2 0 true
      ((pos 7, 0) ∷ (negsuc 0, 5) ∷ (pos 4, 2_000_000_000) ∷ (pos 4, 1) ∷ [])

abbrev empty : Bucket whole
empty = record half_full { tokens = 0; rate = 0 }

wait_total_example :
    (r : Option (Bucket whole) × Bool) × (wait whole 4 (λ i. i) (λ i. leb 3 i) 0 (some empty)
      ≡ some r)
wait_total_example = wait_total whole (λ i. i) (λ i. leb 3 i) 4 0 3 (some empty) refl (omega arith)
