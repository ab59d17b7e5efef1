-- ===== src/Reliability/Retry/Attempts.antt =====
-- How often `RetryPolicy.Do` (common/reliability/retry.go) calls the operation, and what it returns.
use game01_server.Prelude.{
  ℕ, zero, suc, ◌+◌, ◌<◌, ◌≤◌, ◌≡◌, refl, sym, subst, true, false, ◌⊎◌, inl, inr, Option, none,
  some, arith,
}
use native.Mathlib.Decide.{ℕ_discrete}
use game01_server.Prelude.Tests.{Bool-cases, Option-cases}
use game01_server.Reliability.Retry.{RetryPolicy, Run, settle, rounds, retries, do_from, do_retry}

module _ {ℓ} {E : Type ℓ} (p : RetryPolicy E) (operation done : ℕ → Option E) where
  do_from-attempts :
      (n attempt : ℕ) (err : Option E) → (do_from p operation done n attempt err).attempts ≤ n
  unfolding do_from
  do_from-attempts zero attempt err = omega arith
  do_from-attempts (suc n) attempt err =
      ground (arith, do_from-attempts n (suc attempt) (operation attempt))

  -- The attempt fails, its error is retried, and the wait is not cut short.
  abbrev pub Continues : ℕ → Type ℓ
  Continues i = (e : E) × (operation i ≡ some e) × (retries p i e ≡ true) × (done i ≡ none)

  -- The attempt is the last one, with the result: it succeeds, its error is not retried, or the
  -- context ends in the wait after it.
  abbrev pub Stops : ℕ → Option E → Type ℓ
  Stops i r =
      ((operation i ≡ none) × (r ≡ none))
      ⊎ ((e : E) × (operation i ≡ some e) × (retries p i e ≡ false) × (r ≡ some e))
      ⊎ ((e : E) × (c : E) × (operation i ≡ some e)
          × (retries p i e ≡ true)
          × (done i ≡ some c)
          × (r ≡ some c))

  -- A run from `attempt` on ends with the result `r` after `n` attempts.
  abbrev Ends : ℕ → Option E → ℕ → Type ℓ
  Ends attempt r n =
      (k : ℕ) × (attempt ≤ k)
      × (k < rounds p)
      × ((i : ℕ) → attempt ≤ i → i < k → Continues i)
      × Stops k r
      × (attempt + n ≡ suc k)

  settle_cases :
      (i : ℕ) (rest : Run E)
      → let s = settle p done i (operation i) rest in
        (Stops i s.result × (s.attempts ≡ 1))
        ⊎ (Continues i × (s.result ≡ rest.result) × (s.attempts ≡ suc rest.attempts))
  settle_cases i rest = elim (Option-cases (operation i)) [
    | inl e ↦ inl (rw e (inl (refl, refl)), rw e refl)
    | inr (x, e) ↦ elim (Bool-cases (retries p i x)) [
      | inl r ↦ elim (Option-cases (done i)) [
        | inl d ↦ inr ((x, e, r, d), rw (e, r, d) refl, rw (e, r, d) refl)
        | inr (c, d) ↦ inl (rw (e, r, d) (inr (inr (x, c, refl, r, refl, refl))), rw (e, r, d) refl)
      ]
      | inr r ↦ inl (rw (e, r) (inr (inl (x, refl, r, refl))), rw (e, r) refl)
    ]
  ]

  retries-lt : (i : ℕ) (e : E) → retries p i e ≡ true → suc i < rounds p
  unfolding retries
  retries-lt i e h = ground arith

  extend :
      (attempt : ℕ) (r : Option E) (n : ℕ)
      → Continues attempt
      → Ends (suc attempt) r n
      → Ends attempt r (suc n)
  extend attempt r n c (k, le, lt, before, stops, count) =
      (k, omega arith, lt, all, stops, omega arith)
    where
      all : (i : ℕ) → attempt ≤ i → i < k → Continues i
      all i h l = elim (ℕ_discrete i attempt) [
        | yes same ↦ subst Continues (sym same) c
        | no differ ↦ before i (omega arith) l
      ]

  last_stop : (attempt : ℕ) (r : Option E) → attempt < rounds p → Stops attempt r → Ends attempt r 1
  last_stop attempt r lt stops =
      (attempt, omega arith, lt, (λ i a b. absurd (omega arith)), stops, omega arith)

  do_from-Ends :
      (n attempt : ℕ) (err : Option E)
      → attempt + suc n ≡ rounds p
      → let r = do_from p operation done (suc n) attempt err in Ends attempt r.result r.attempts
  unfolding do_from
  do_from-Ends zero attempt err h =
      elim (settle_cases attempt
        (do_from p operation done zero (suc attempt) (operation attempt))) [
          | inl (stops, one) ↦ rw one (last_stop attempt _ (omega arith) stops)
          | inr (c, _, _) ↦ absurd (omega (arith, retries-lt attempt c.0 c.2))
        ]
  do_from-Ends (suc n) attempt err h =
      let rest = do_from p operation done (suc n) (suc attempt) (operation attempt) in
      elim (settle_cases attempt rest) [
        | inl (stops, one) ↦ rw one (last_stop attempt _ (omega arith) stops)
        | inr (c, res, att) ↦
            rw (res, att)
              (extend attempt rest.result rest.attempts c
                (do_from-Ends n (suc attempt) (operation attempt) (omega arith)))
      ]

rounds_pos {ℓ} : {E : Type ℓ} (p : RetryPolicy E) → 1 ≤ rounds p
unfolding rounds
rounds_pos p = ground arith

-- `Do` always ends, with an attempt below the number of rounds (at least 1) that is its last: every
-- attempt before it failed with an error that is retried, in a wait that ran out; and the result is
-- nil if that attempt succeeds, its error if that is not retried, or the error of the context if that
-- ends in the wait.
pub do_retry_lem {ℓ} :
    {E : Type ℓ} (p : RetryPolicy E) (operation done : ℕ → Option E)
    → (k : ℕ) × (k < rounds p)
      × ((i : ℕ) → i < k → Continues p operation done i)
      × Stops p operation done k (do_retry p operation done).result
      × ((do_retry p operation done).attempts ≡ suc k)
unfolding do_retry
do_retry_lem p operation done = finish (rounds p) refl
  where
    finish :
        (n : ℕ)
        → rounds p ≡ n
        → (k : ℕ) × (k < rounds p)
          × ((i : ℕ) → i < k → Continues p operation done i)
          × Stops p operation done k (do_from p operation done n 0 none).result
          × ((do_from p operation done n 0 none).attempts ≡ suc k)
    finish zero h = absurd (omega (arith, rounds_pos p))
    finish (suc n) h =
        let (k, _, lt, before, stops, count) =
          do_from-Ends p operation done n 0 none (omega arith) in
        (k, lt, (λ i l. before i (omega arith) l), stops, omega arith)
