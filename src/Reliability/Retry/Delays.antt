-- ===== src/Reliability/Retry/Delays.antt =====
-- The waits between the attempts of `RetryPolicy.Do` (common/reliability/retry.go).
use native.Mathlib.Nat.{pow-suc}
use game01_server.Prelude.{
  ℕ, zero, suc, ◌+◌, ◌*◌, ◌%◌, ◌^◌, ◌<◌, ◌≡◌, refl, min, Option, none, arith,
}
use game01_server.Prelude.Lists.{All}
use game01_server.Prelude.Int.{pos, ◌≤ℤ◌}
use game01_server.Reliability.Retry.{
  RetryPolicy, rounds, do_from, do_retry, backoff, first_delay, longest_delay,
}

backoff-le : (initial max attempt : ℕ) → backoff initial max attempt ≤ℤ pos max
unfolding backoff
backoff-le initial max attempt = ground arith

module _ {ℓ} {E : Type ℓ} (p : RetryPolicy E) (operation done : ℕ → Option E) where
  do_from-delays :
      (n attempt : ℕ) (err : Option E)
      → All (λ d. d ≤ℤ pos (longest_delay p)) (do_from p operation done n attempt err).delays
  unfolding do_from
  do_from-delays zero attempt err = tt
  do_from-delays (suc n) attempt err = ground (
    arith,
    do_from-delays n (suc attempt) (operation attempt),
    backoff-le (first_delay p) (longest_delay p) attempt,
  )

-- No wait of a run is longer than `MaxDelay`, or a second where that is not positive.
pub do_retry-delays {ℓ} :
    {E : Type ℓ} (p : RetryPolicy E) (operation done : ℕ → Option E)
    → All (λ d. d ≤ℤ pos (longest_delay p)) (do_retry p operation done).delays
unfolding do_retry
do_retry-delays p operation done = do_from-delays p operation done (rounds p) 0 none

-- As long as the doubled delay fits an `int64`, the wait after attempt `n` (counted from 0) is
-- `InitialDelay * 2 ^ n`, cut off at `MaxDelay`.
pub backoff_exact :
    (initial max attempt : ℕ)
    → initial * 2 ^ attempt < 2 ^ 63
    → backoff initial max attempt ≡ pos (min (initial * 2 ^ attempt) max)
unfolding backoff
backoff_exact initial max attempt h = ground arith

pow_split : (n : ℕ) → 2 ^ (n + 64) ≡ 2 ^ n * 2 ^ 64
pow_split zero = refl
pow_split (suc n) =
    let e : suc n + 64 ≡ suc (n + 64) = omega arith in
    rw (e, pow-suc 2 (n + 64), pow-suc 2 n) (omega (arith, pow_split n))

no_bit_left : (initial n : ℕ) → initial * 2 ^ (n + 64) % 2 ^ 64 ≡ 0
no_bit_left initial n = rw (pow_split n) (omega arith)

-- From the 65th attempt on the shift leaves no bit, and the wait is 0 whatever the delays are: the
-- operation is repeated with no pause at all.
pub backoff_overflow : (initial max n : ℕ) → backoff initial max (n + 64) ≡ pos 0
unfolding backoff
backoff_overflow initial max n = rw (no_bit_left initial n) (ground arith)
