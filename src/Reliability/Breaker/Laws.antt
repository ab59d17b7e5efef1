-- ===== src/Reliability/Breaker/Laws.antt =====
-- Invariants of the circuit breaker (common/reliability/breaker.go), under every interleaving of
-- the calls that share it.
use game01_server.Prelude.{
  ℕ, suc, ◌+◌, ◌≡◌, ◌<◌, ◌≤◌, ◌⊎◌, ◌≢◌, Bool, true, false, Option, none, some, arith,
}
use game01_server.Prelude.Int.{ℤ}
use game01_server.Reliability.Breaker.{
  closed, opened, half_open, CircuitBreaker, new_circuit_breaker, allow, complete, set_observer,
}

pub record IsSound (b : CircuitBreaker) : Type 0 where
  pub threshold_pos : 1 ≤ b.threshold
  pub timeout_pos : 1 ≤ b.reset_timeout
  pub closed_below : b.state ≡ closed → b.failures < b.threshold
  pub tripped : b.state ≢ closed → b.threshold ≤ b.failures

new_circuit_breaker-IsSound :
    (failure_threshold reset_timeout : ℤ) (observer : Bool)
    → IsSound (new_circuit_breaker failure_threshold reset_timeout observer)
unfolding new_circuit_breaker
new_circuit_breaker-IsSound failure_threshold reset_timeout observer = ground arith

allow-IsSound : (b : CircuitBreaker) (now : ℕ) → IsSound b → IsSound (allow b now).0
unfolding allow
allow-IsSound b now v = ground arith

complete-IsSound {ℓ} :
    {E : Type ℓ} (b : CircuitBreaker) (err : Option E) (now : ℕ)
    → IsSound b
    → IsSound (complete b err now).0
unfolding complete
complete-IsSound b none now v = ground arith
complete-IsSound b (some e) now v = ground arith

-- Calls that overlap in time: each takes `admit` when it starts, and a call that was admitted takes
-- `finish` when its operation is done, in any order. `in_flight` counts those in between.
pub data Step {ℓ} (E : Type ℓ) : CircuitBreaker × ℕ → CircuitBreaker × ℕ → Type ℓ where
  admit :
      (b : CircuitBreaker) (n now : ℕ)
      → (allow b now).1 ≡ true
      → Step E (b, n) ((allow b now).0, suc n)
  reject :
      (b : CircuitBreaker) (n now : ℕ)
      → (allow b now).1 ≡ false
      → Step E (b, n) ((allow b now).0, n)
  finish :
      (b : CircuitBreaker) (n now : ℕ) (err : Option E)
      → Step E (b, suc n) ((complete b err now).0, n)
  observe :
      (b : CircuitBreaker) (n : ℕ) (observer : Bool)
      → Step E (b, n) ((set_observer b observer).0, n)

pub data Reach {ℓ} (E : Type ℓ) (s : CircuitBreaker × ℕ) : CircuitBreaker × ℕ → Type ℓ where
  here : Reach E s s
  next : {t u : CircuitBreaker × ℕ} → Reach E s t → Step E t u → Reach E s u

set_observer-IsSound :
    (b : CircuitBreaker) (observer : Bool) → IsSound b → IsSound (set_observer b observer).0
unfolding set_observer
set_observer-IsSound b observer v = ground arith

Step-IsSound {ℓ} : {E : Type ℓ} {s t : CircuitBreaker × ℕ} → Step E s t → IsSound s.0 → IsSound t.0
Step-IsSound (admit b n now _) v = allow-IsSound b now v
Step-IsSound (reject b n now _) v = allow-IsSound b now v
Step-IsSound (finish b n now err) v = complete-IsSound b err now v
Step-IsSound (observe b n observer) v = set_observer-IsSound b observer v

IsSound-Reach {ℓ} :
    {E : Type ℓ} {s t : CircuitBreaker × ℕ} → IsSound s.0 → Reach E s t → IsSound t.0
IsSound-Reach v here = v
IsSound-Reach v (next r st) = Step-IsSound st (IsSound-Reach v r)

-- However calls overlap on a new breaker, and whatever they return: the threshold and the reset
-- timeout are positive, a closed breaker has counted fewer failures than its threshold, and an open
-- or half-open one has counted at least that many.
pub Reach-IsSound {ℓ} :
    {E : Type ℓ} (failure_threshold reset_timeout : ℤ) (observer : Bool) {t : CircuitBreaker × ℕ}
    → Reach E (new_circuit_breaker failure_threshold reset_timeout observer, 0) t
    → IsSound t.0
Reach-IsSound failure_threshold reset_timeout observer r =
    IsSound-Reach (new_circuit_breaker-IsSound failure_threshold reset_timeout observer) r

-- A half-open breaker lets no second call through, at any time, and is left as it is; the end of its
-- probe takes it out of that state: a nil error closes it and clears the count, any other error
-- opens it for a full reset timeout.
pub half_open_probe {ℓ} :
    {E : Type ℓ} (b : CircuitBreaker) (e : E) (now : ℕ)
    → IsSound b
    → b.state ≡ half_open
    → ((allow b now).0 ≡ b)
      × ((allow b now).1 ≡ false)
      × ((complete {E = E} b none now).0.state ≡ closed)
      × ((complete {E = E} b none now).0.failures ≡ 0)
      × ((complete b (some e) now).0.state ≡ opened)
      × ((complete b (some e) now).0.open_until ≡ now + b.reset_timeout)
unfolding allow complete
half_open_probe b e now v h = ground arith

-- An open breaker refuses every call before `open_until` and does not change; at that time or later
-- it lets one call through and is half-open, so that the next call, at any time, is refused.
pub open_admits_one :
    (b : CircuitBreaker) (now later : ℕ)
    → b.state ≡ opened
    → ((now < b.open_until) × ((allow b now).1 ≡ false) × ((allow b now).0 ≡ b))
      ⊎ ((b.open_until ≤ now)
          × ((allow b now).1 ≡ true)
          × ((allow b now).0.state ≡ half_open)
          × ((allow (allow b now).0 later).1 ≡ false))
unfolding allow
open_admits_one b now later h = ground arith
