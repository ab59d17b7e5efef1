-- ===== src/Reliability/Breaker/Trip.antt =====
-- What a run of calls under the breaker does (common/reliability/breaker.go).
use game01_server.Prelude.{
  ℕ, ◌+◌, ◌≡◌, ◌<◌, ◌≤◌, ◌⊎◌, inl, inr, ◌↔◌, ◌≢◌, Bool, true, false, Option, some, List, [], ◌∷◌,
  arith,
}
use game01_server.Prelude.Lists.{length}
use game01_server.Reliability.Breaker.{closed, opened, half_open, CircuitBreaker, allow, complete}
use game01_server.Reliability.Breaker.Calls.{circuit_open, call_error, execute_classified}
use game01_server.Reliability.Breaker.Laws.{IsSound}

-- The breaker after a row of failures, each at a time of its own.
pub fail_all {ℓ} : {E : Type ℓ} → CircuitBreaker → List (E × ℕ) → CircuitBreaker
fail_all b [] = b
fail_all b ((e, now) ∷ es) = fail_all (complete b (some e) now).0 es

fail_all-failures {ℓ} :
    {E : Type ℓ} (b : CircuitBreaker) (es : List (E × ℕ))
    → ((fail_all b es).failures ≡ b.failures + length es)
      × ((fail_all b es).threshold ≡ b.threshold)
unfolding fail_all complete
fail_all-failures b [] = omega arith
fail_all-failures b ((e, now) ∷ es) =
    ground (arith, fail_all-failures (complete b (some e) now).0 es)

fail_all-IsSound {ℓ} :
    {E : Type ℓ} (b : CircuitBreaker) (es : List (E × ℕ)) → IsSound b → IsSound (fail_all b es)
unfolding fail_all complete
fail_all-IsSound b [] v = v
fail_all-IsSound b ((e, now) ∷ es) v =
    fail_all-IsSound (complete b (some e) now).0 es (ground arith)

-- `half_open` is left by the first failure and not entered again without `allow`.
fail_all-ne-half_open {ℓ} :
    {E : Type ℓ} (b : CircuitBreaker) (es : List (E × ℕ))
    → b.state ≢ half_open
    → (fail_all b es).state ≢ half_open
unfolding fail_all complete
fail_all-ne-half_open b [] h = h
fail_all-ne-half_open b ((e, now) ∷ es) h =
    fail_all-ne-half_open (complete b (some e) now).0 es (ground arith)

trip_iff :
    (b : CircuitBreaker)
    → IsSound b
    → b.state ≢ half_open
    → (b.state ≡ opened → b.threshold ≤ b.failures) × (b.threshold ≤ b.failures → b.state ≡ opened)
trip_iff b v h = (λ o. ground arith, λ l. ground arith)

-- From a sound closed breaker with no failure counted, a row of failed calls opens the breaker
-- exactly when it is as long as the threshold or longer.
pub opens_at_threshold {ℓ} :
    {E : Type ℓ} (b : CircuitBreaker) (es : List (E × ℕ))
    → IsSound b
    → b.state ≡ closed
    → b.failures ≡ 0
    → (fail_all b es).state ≡ opened ↔ (b.threshold ≤ length es)
opens_at_threshold b es v c z =
    let iff =
      trip_iff (fail_all b es) (fail_all-IsSound b es v) (fail_all-ne-half_open b es (λ h. cc)) in
    let (count, same) = fail_all-failures b es in
    (λ o. omega (arith, iff.0 o), λ l. iff.1 (omega arith))

-- A call that finds the breaker closed or open leaves it so, never half-open, and leaves it sound:
-- an admitted call ends the probe that it started, whatever the operation returns and whether its
-- error counts.
pub execute_settles {ℓ} :
    {E : Type ℓ} (b : CircuitBreaker) (err : Option E) (counts_failure : Option (Option E → Bool))
    (started finished : ℕ) (b' : CircuitBreaker)
    → IsSound b
    → b.state ≢ half_open
    → (execute_classified (some b) err counts_failure started finished).breaker ≡ some b'
    → (b'.state ≢ half_open) × IsSound b'
unfolding execute_classified allow complete
execute_settles b err counts_failure started finished b' v h e = ground arith

allow_cases :
    (b : CircuitBreaker) (now : ℕ)
    → (((allow b now).1 ≡ false)
        × ((allow b now).0 ≡ b)
        × (((b.state ≡ opened) × (now < b.open_until)) ⊎ (b.state ≡ half_open)))
      ⊎ (((allow b now).1 ≡ true)
          × ((b.state ≡ closed) ⊎ ((b.state ≡ opened) × (b.open_until ≤ now))))
unfolding allow
allow_cases b now = ground arith

-- A call that does not run its operation returns `ErrCircuitOpen` and leaves the breaker as it was, which is open
-- before `open_until`, or half-open; any other call runs the operation and returns its error unchanged, and then
-- the breaker was closed, or open with `open_until` reached.
pub execute_result {ℓ} :
    {E : Type ℓ} (b : CircuitBreaker) (err : Option E) (counts_failure : Option (Option E → Bool))
    (started finished : ℕ)
    → let c = execute_classified (some b) err counts_failure started finished in
      ((c.called ≡ false)
        × (c.result ≡ some circuit_open)
        × (c.breaker ≡ some b)
        × (((b.state ≡ opened) × (started < b.open_until)) ⊎ (b.state ≡ half_open)))
      ⊎ ((c.called ≡ true)
          × (c.result ≡ call_error err)
          × ((b.state ≡ closed) ⊎ ((b.state ≡ opened) × (b.open_until ≤ started))))
unfolding execute_classified
execute_result b err counts_failure started finished = elim (allow_cases b started) [
  | inl (denied, same, why) ↦ inl (ground (arith, denied, same, why))
  | inr (granted, why) ↦ inr (ground (arith, granted, why))
]
