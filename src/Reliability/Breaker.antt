-- ===== src/Reliability/Breaker.antt =====
-- common/reliability/breaker.go, with the states and the observer of observer.go. A time is a
-- number of nanoseconds, with 0 for the zero `time.Time`. An operation that reads the clock takes
-- the reading as an argument. The calls that the observer receives are returned as a list.
pub mod Laws
pub mod Trip
pub mod Calls
mod Examples
use game01_server.Prelude.{
  ℕ, suc, ◌+◌, Bool, true, false, not, ◌&&◌, ◌||◌, Option, none, some, List, [], ◌∷◌, ◌++◌, String,
}
use game01_server.Prelude.Tests.{ltb, leb, if◌then◌else◌}
use game01_server.Prelude.Int.{ℤ, pos, ltb_ℤ, leb_ℤ, pos_part}

pub data CircuitState : Type 0 where
  closed opened half_open : CircuitState

-- What a `CircuitObserver` is told.
pub data Notice : Type 0 where
  on_call : String → Notice
  on_state_change : CircuitState → CircuitState → Notice

pub record CircuitBreaker : Type 0 where
  pub failures : ℕ
  pub threshold : ℕ
  pub open_until : ℕ
  pub reset_timeout : ℕ
  pub state : CircuitState
  pub observer : Bool

abbrev pub second : ℕ
second = 1_000_000_000

unfoldable pub new_circuit_breaker : ℤ → ℤ → Bool → CircuitBreaker
new_circuit_breaker failure_threshold reset_timeout observer = record {
  failures = 0;
  threshold = if ltb_ℤ failure_threshold (pos 1) then 1 else pos_part failure_threshold;
  open_until = 0;
  reset_timeout = if leb_ℤ reset_timeout (pos 0) then second else pos_part reset_timeout;
  state = closed;
  observer = observer;
}

abbrev pub is_closed : CircuitState → Bool
is_closed closed = true
is_closed _ = false

abbrev pub is_opened : CircuitState → Bool
is_opened opened = true
is_opened _ = false

-- A call of the observer, if there is one.
abbrev pub tell : Bool → Notice → List Notice
tell observer n = if observer then n ∷ [] else []

unfoldable pub notify_state_change : CircuitBreaker → CircuitState → CircuitState → List Notice
notify_state_change b from to = tell b.observer (on_state_change from to)

-- The `switch` of `allow`.
unfoldable pub allow_in : CircuitState → CircuitBreaker → ℕ → CircuitBreaker × Bool × List Notice
unfolding notify_state_change
allow_in closed b now = (b, true, [])
allow_in opened b now =
    if ltb now b.open_until
    then (b, false, [])
    else (record b { state = half_open }, true, notify_state_change b b.state half_open)
allow_in half_open b now = (b, false, [])

unfoldable pub allow : CircuitBreaker → ℕ → CircuitBreaker × Bool × List Notice
unfolding allow_in
allow b now = allow_in b.state b now

module _ {ℓ} {E : Type ℓ} where
  -- `none` is a nil error.
  unfoldable pub complete : CircuitBreaker → Option E → ℕ → CircuitBreaker × List Notice
  unfolding notify_state_change
  complete b none now =
      let reset = record b { failures = 0; open_until = 0; state = closed } in
      (reset, if is_closed b.state then [] else notify_state_change b b.state closed)
  complete b (some e) now =
      let counted = record b { failures = suc b.failures } in
      let tripped = record counted { open_until = now + b.reset_timeout; state = opened } in
      if leb b.threshold (suc b.failures)
      then (tripped, if is_opened b.state then [] else notify_state_change b b.state opened)
      else (counted, [])

pub state_of : Option CircuitBreaker → CircuitState
state_of none = closed
state_of (some b) = b.state

-- `SetObserver`; a nil observer is `false`.
unfoldable pub set_observer : CircuitBreaker → Bool → CircuitBreaker × List Notice
set_observer b observer =
    (record b { observer = observer }, tell observer (on_state_change b.state b.state))
