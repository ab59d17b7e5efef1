-- ===== src/Reliability/Retry/Examples.antt =====
-- Runs of `RetryPolicy.Do` of common/reliability/retry.go.
use game01_server.Prelude.{ℕ, suc, ◌<◌, ◌≡◌, refl, true, Option, none, some, [], ◌∷◌}
use game01_server.Prelude.Tests.{ltb, if◌then◌else◌}
use game01_server.Prelude.Int.{pos}
use game01_server.Reliability.Retry.{
  RetryPolicy, backoff, rounds, longest_delay, do_retry, do_from, retries, first_delay,
}
use game01_server.Reliability.Retry.Attempts.{Continues, Stops, do_retry_lem}
use game01_server.Reliability.Retry.Delays.{backoff_overflow}

-- Five rounds of an operation that succeeds the third time.
abbrev five : RetryPolicy ℕ
five = record {
  max_attempts = pos 5;
  initial_delay = pos 10;
  max_delay = pos 15;
  should_retry = none;
  observer = true;
}

abbrev third : ℕ → Option ℕ
third i = if ltb i 2 then some i else none

abbrev never : ℕ → Option ℕ
never i = none

five_waits : (do_retry five third never).delays ≡ pos 10 ∷ pos 15 ∷ []
unfolding do_retry do_from rounds retries longest_delay first_delay backoff
five_waits = refl

do_retry_lem_example :
    (k : ℕ) × (k < rounds five)
    × ((i : ℕ) → i < k → Continues five third never i)
    × Stops five third never k (do_retry five third never).result
    × ((do_retry five third never).attempts ≡ suc k)
do_retry_lem_example = do_retry_lem five third never

backoff_overflow_example : backoff 10 1000 66 ≡ pos 0
backoff_overflow_example = backoff_overflow 10 1000 2
