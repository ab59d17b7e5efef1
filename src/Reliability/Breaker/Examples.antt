-- ===== src/Reliability/Breaker/Examples.antt =====
-- Runs of the circuit breaker of common/reliability/breaker.go on concrete calls.
use game01_server.Prelude.{ℕ, ◌≡◌, ◌≢◌, refl, true, none, some, arith}
use game01_server.Prelude.Int.{pos}
use game01_server.Reliability.Breaker.{
  closed, opened, half_open, CircuitBreaker, new_circuit_breaker, allow, complete,
}
use game01_server.Reliability.Breaker.Calls.{execute_classified}
use game01_server.Reliability.Breaker.Laws.{
  IsSound, admit, finish, Reach, here, next, Reach-IsSound,
}
use game01_server.Reliability.Breaker.Trip.{execute_settles}

-- The errors of the operations.
abbrev boom : ℕ
boom = 7

abbrev bang : ℕ
bang = 8

-- A breaker of two failures, new, open until 100, and half-open.
abbrev fresh : CircuitBreaker
fresh = record {
  failures = 0;
  threshold = 2;
  open_until = 0;
  reset_timeout = 50;
  state = closed;
  observer = true;
}

abbrev tripped : CircuitBreaker
tripped = record fresh { failures = 2; open_until = 100; state = opened }

abbrev probing : CircuitBreaker
probing = record tripped { state = half_open }

fresh-IsSound : IsSound fresh
fresh-IsSound = ground arith

probing-IsSound : IsSound probing
probing-IsSound = ground arith

fresh_new : new_circuit_breaker (pos 2) (pos 50) true ≡ fresh
unfolding new_circuit_breaker
fresh_new = refl

-- Two calls that overlap, both failing.
overlap :
    Reach ℕ
      (new_circuit_breaker (pos 2) (pos 50) true, 0)
      ((complete (complete fresh (some boom) 40).0 (some bang) 50).0, 0)
unfolding new_circuit_breaker allow
overlap =
    next
      (next (next (next here (admit fresh 0 10 refl)) (admit fresh 1 20 refl))
        (finish fresh 1 40 (some boom)))
      (finish (complete fresh (some boom) 40).0 0 50 (some bang))

overlap_trips : (complete (complete fresh (some boom) 40).0 (some bang) 50).0 ≡ tripped
unfolding complete
overlap_trips = refl

Reach-IsSound_example : IsSound (complete (complete fresh (some boom) 40).0 (some bang) 50).0
Reach-IsSound_example = Reach-IsSound (pos 2) (pos 50) true overlap

abbrev reopened : CircuitBreaker
reopened = record tripped { failures = 3; open_until = 180 }

probe_fails : (execute_classified (some tripped) (some boom) none 120 130).breaker ≡ some reopened
unfolding execute_classified allow complete
probe_fails = refl

tripped-IsSound : IsSound tripped
tripped-IsSound = ground arith

execute_settles_example : (reopened.state ≢ half_open) × IsSound reopened
execute_settles_example =
    execute_settles tripped (some boom) none 120 130 reopened tripped-IsSound (λ e. cc) probe_fails
