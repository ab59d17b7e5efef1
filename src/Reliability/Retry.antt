-- ===== src/Reliability/Retry.antt =====
-- common/reliability/retry.go, with the `RetryObserver` of observer.go. The operation is given by the
-- error of each attempt, counted from 0, and the context by the error that `ctx.Done` yields in the
-- wait after an attempt, `none` where the timer fires first. The durations that `OnComplete` is told
-- are left out.
pub mod Delays
pub mod Attempts
mod Examples
use game01_server.Prelude.{
  ℕ, zero, suc, ◌+◌, ◌*◌, ◌%◌, ◌^◌, Bool, true, false, ◌&&◌, Option, none, some, List, [], ◌∷◌,
  ◌++◌,
}
use game01_server.Prelude.Tests.{ltb, leb, if◌then◌else◌}
use game01_server.Prelude.Int.{ℤ, pos, ltb_ℤ, leb_ℤ, pos_part, sub_ℕ}

pub record RetryPolicy {ℓ} (E : Type ℓ) : Type ℓ where
  pub max_attempts : ℤ
  pub initial_delay : ℤ
  pub max_delay : ℤ
  pub should_retry : Option (E → Bool)
  pub observer : Bool

pub data Notice {ℓ} (E : Type ℓ) : Type ℓ where
  on_attempt : ℕ → Notice E
  on_retry : ℕ → E → Notice E
  on_complete : ℕ → Bool → Option E → Notice E

-- What a call of `Do` has done: its result, the calls of the operation, the waits and the notices.
pub record Run {ℓ} (E : Type ℓ) : Type ℓ where
  pub result : Option E
  pub attempts : ℕ
  pub delays : List ℤ
  pub notices : List (Notice E)

-- The bit pattern of an `int64` as an integer.
unfoldable pub to_int64 : ℕ → ℤ
to_int64 u = if ltb u (2 ^ 63) then pos u else sub_ℕ u (2 ^ 64)

-- `p.InitialDelay << attempt`, cut off at `p.MaxDelay`.
unfoldable pub backoff : ℕ → ℕ → ℕ → ℤ
unfolding to_int64
backoff initial max attempt =
    let delay = to_int64 (initial * 2 ^ attempt % 2 ^ 64) in
    if ltb_ℤ (pos max) delay then pos max else delay

module _ {ℓ} {E : Type ℓ} where
  -- The defaults at the head of `Do`.
  unfoldable pub rounds : RetryPolicy E → ℕ
  rounds p = if leb_ℤ p.max_attempts (pos 0) then 1 else pos_part p.max_attempts

  unfoldable pub first_delay : RetryPolicy E → ℕ
  first_delay p = if leb_ℤ p.initial_delay (pos 0) then 10_000_000 else pos_part p.initial_delay

  unfoldable pub longest_delay : RetryPolicy E → ℕ
  longest_delay p = if leb_ℤ p.max_delay (pos 0) then 1_000_000_000 else pos_part p.max_delay

  abbrev pub allows : Option (E → Bool) → E → Bool
  allows none e = true
  allows (some f) e = f e

  unfoldable pub retries : RetryPolicy E → ℕ → E → Bool
  retries p attempt e = ltb (attempt + 1) (rounds p) && allows p.should_retry e

  abbrev pub told : RetryPolicy E → List (Notice E) → List (Notice E)
  told p ns = if p.observer then ns else []

  abbrev pub stop : RetryPolicy E → ℕ → List (Notice E) → Option E → Bool → Run E
  stop p attempt before result exhausted = record {
    result = result;
    attempts = 1;
    delays = [];
    notices = told p (before ++ on_complete (attempt + 1) exhausted result ∷ []);
  }

  -- The wait, and then the later rounds.
  abbrev pub go_on : RetryPolicy E → ℕ → E → Option E → Run E → Run E
  go_on p attempt e (some cancelled) rest =
      let s =
        stop p attempt (on_attempt (attempt + 1) ∷ on_retry (attempt + 1) e ∷ []) (some cancelled)
          false in
      record s { delays = backoff (first_delay p) (longest_delay p) attempt ∷ [] }
  go_on p attempt e none rest = record {
    result = rest.result;
    attempts = suc rest.attempts;
    delays = backoff (first_delay p) (longest_delay p) attempt ∷ rest.delays;
    notices = told p (on_attempt (attempt + 1) ∷ on_retry (attempt + 1) e ∷ []) ++ rest.notices;
  }

  -- The body of the loop after a call of the operation.
  abbrev pub settle : RetryPolicy E → (ℕ → Option E) → ℕ → Option E → Run E → Run E
  settle p done attempt none rest = stop p attempt (on_attempt (attempt + 1) ∷ []) none false
  settle p done attempt (some e) rest =
      if retries p attempt e
      then go_on p attempt e (done attempt) rest
      else stop p attempt (on_attempt (attempt + 1) ∷ []) (some e)
          (ltb 0 attempt && leb (rounds p) (attempt + 1))

  -- The loop, with the rounds that are left; `err` is the last error.
  unfoldable pub do_from :
      RetryPolicy E → (ℕ → Option E) → (ℕ → Option E) → ℕ → ℕ → Option E → Run E
  do_from p operation done zero attempt err = record {
    result = err;
    attempts = 0;
    delays = [];
    notices = told p (on_complete (rounds p) (ltb 1 (rounds p)) err ∷ []);
  }
  do_from p operation done (suc n) attempt err =
      let rest = do_from p operation done n (suc attempt) (operation attempt) in
      settle p done attempt (operation attempt) rest

  -- `Do`
  unfoldable pub do_retry : RetryPolicy E → (ℕ → Option E) → (ℕ → Option E) → Run E
  do_retry p operation done = do_from p operation done (rounds p) 0 none
