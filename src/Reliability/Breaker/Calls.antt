-- ===== src/Reliability/Breaker/Calls.antt =====
-- `ExecuteClassified` of common/reliability/breaker.go: one call under the breaker. The operation is
-- given by the error that it returns; `started` and `finished` are the clock readings of `allow` and
-- of `complete`.
use game01_server.Prelude.{ℕ, Bool, true, false, Option, none, some, List, [], ◌++◌, String}
use game01_server.Prelude.Tests.{if◌then◌else◌}
use game01_server.Reliability.Breaker.{CircuitBreaker, Notice, on_call, tell, allow, complete}

pub data CallError {ℓ} (E : Type ℓ) : Type ℓ where
  circuit_open : CallError E
  failed : E → CallError E

-- `called` says whether the operation ran.
pub record Call {ℓ} (E : Type ℓ) : Type ℓ where
  pub breaker : Option CircuitBreaker
  pub called : Bool
  pub result : Option (CallError E)
  pub notices : List Notice

module _ {ℓ} {E : Type ℓ} where
  abbrev pub call_error : Option E → Option (CallError E)
  call_error none = none
  call_error (some e) = some (failed e)

  -- `countsFailure == nil || countsFailure(err)`
  abbrev pub counts : Option (Option E → Bool) → Option E → Bool
  counts none err = true
  counts (some counts_failure) err = counts_failure err

  abbrev pub call_result : Bool → Option E → String
  call_result counted none = "success"
  call_result counted (some e) = if counted then "failure" else "ignored_failure"

  unfoldable pub after_call : Bool → CircuitBreaker → List Notice → Option E → ℕ → Call E
  after_call counted b before err finished =
      let (b', changes) = complete b (if counted then err else none) finished in
      record {
        breaker = some b';
        called = true;
        result = call_error err;
        notices = before ++ (changes ++ tell b.observer (on_call (call_result counted err)));
      }

  unfoldable pub execute_classified :
      Option CircuitBreaker → Option E → Option (Option E → Bool) → ℕ → ℕ → Call E
  unfolding after_call
  execute_classified none err counts_failure started finished = record {
    breaker = none;
    called = true;
    result = call_error err;
    notices = [];
  }
  execute_classified (some b) err counts_failure started finished =
      let (b', allowed, changes) = allow b started in
      if allowed then after_call (counts counts_failure err) b' changes err finished else record {
        breaker = some b';
        called = false;
        result = some circuit_open;
        notices = changes ++ tell b.observer (on_call "circuit_open");
      }

  -- `Execute`
  unfoldable pub execute : Option CircuitBreaker → Option E → ℕ → ℕ → Call E
  unfolding execute_classified
  execute b err = execute_classified b err (some (λ _. true))
