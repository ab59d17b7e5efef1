-- ===== src/Storage/UnitOfWork.antt =====
-- common/mongodb/transaction.go: a group of operations on a state `W` in one transaction. The sessions belong to the
-- driver, and are a parameter.
use game01_server.Prelude.{ℕ, ◌≡◌, ◌⊎◌, inl, inr, refl, Option, none, some}
use game01_server.Prelude.Tests.{Option-cases}

-- How `WithTransaction` ends: the callback's error is passed on.
pub data Ended (E : Type 0) : Type 0 where
  committed : Ended E
  callback_failed : E → Ended E
  driver_failed : ℕ → Ended E

pub record SessionFactory (W E : Type 0) : Type 0 where
  -- The error of `Start`.
  pub start : W → Option ℕ
  pub with_transaction : W → (W → W × Option E) → W × Ended E

-- What the driver's documentation promises of `WithTransaction`: without an error the callback ran without an error, and
-- its effect is there; with an error there is no effect, or, where the answer to the commit was lost, all of it.
pub record IsAtomic {W E : Type 0} (sessions : SessionFactory W E) : Type 0 where
  pub commit_ok :
      (w : W) (f : W → W × Option E)
      → (sessions.with_transaction w f).1 ≡ committed
      → ((sessions.with_transaction w f).0 ≡ (f w).0) × ((f w).1 ≡ none)
  pub callback_error :
      (w : W) (f : W → W × Option E) (e : E)
      → (sessions.with_transaction w f).1 ≡ callback_failed e
      → ((sessions.with_transaction w f).0 ≡ w) × ((f w).1 ≡ some e)
  pub driver_error :
      (w : W) (f : W → W × Option E) (n : ℕ)
      → (sessions.with_transaction w f).1 ≡ driver_failed n
      → ((sessions.with_transaction w f).0 ≡ w)
        ⊎ (((sessions.with_transaction w f).0 ≡ (f w).0) × ((f w).1 ≡ none))

-- `driver` takes the driver's errors to errors.
abbrev pub ended_error : {E : Type 0} → (ℕ → E) → Ended E → Option E
ended_error driver committed = none
ended_error driver (callback_failed e) = some e
ended_error driver (driver_failed n) = some (driver n)

module _ {W E : Type 0} (driver : ℕ → E) where
  -- `Execute` of a unit of work that has its sessions and its function.
  unfoldable pub execute : SessionFactory W E → W → (W → W × Option E) → W × Option E
  execute sessions w f =
      let (w', e) = sessions.with_transaction w f in
      elim (sessions.start w) [ some n ↦ (w, some (driver n)) | none ↦ (w', ended_error driver e) ]

  -- The three ends of an execution: all of the function's effect and no error, no effect and an error, or all of the
  -- effect and the driver's error. An error that is not the driver's is the function's.
  pub execute_cases :
      (sessions : SessionFactory W E) (atomic : IsAtomic sessions) (w : W) (f : W → W × Option E)
      → (((execute sessions w f).0 ≡ (f w).0)
          × ((f w).1 ≡ none)
          × ((execute sessions w f).1 ≡ none))
        ⊎ (((execute sessions w f).0 ≡ w)
            × ((e : E) × ((execute sessions w f).1 ≡ some e)
                × (((f w).1 ≡ some e) ⊎ ((n : ℕ) × (e ≡ driver n)))))
        ⊎ (((execute sessions w f).0 ≡ (f w).0)
            × ((f w).1 ≡ none)
            × ((n : ℕ) × ((execute sessions w f).1 ≡ some (driver n))))
  unfolding execute
  execute_cases sessions atomic w f = elim (Option-cases (sessions.start w)) [
    | inr (n, h) ↦ rw (execute, h) (inr (inl (refl, (driver n, refl, inr (n, refl)))))
    | inl h ↦ rw (execute, h) (by_end (sessions.with_transaction w f).1 refl)
  ]
    where
      by_end :
          (e : Ended E)
          → (sessions.with_transaction w f).1 ≡ e
          → (((sessions.with_transaction w f).0 ≡ (f w).0)
              × ((f w).1 ≡ none)
              × (ended_error driver e ≡ none))
            ⊎ (((sessions.with_transaction w f).0 ≡ w)
                × ((d : E) × (ended_error driver e ≡ some d)
                    × (((f w).1 ≡ some d) ⊎ ((n : ℕ) × (d ≡ driver n)))))
            ⊎ (((sessions.with_transaction w f).0 ≡ (f w).0)
                × ((f w).1 ≡ none)
                × ((n : ℕ) × (ended_error driver e ≡ some (driver n))))
      by_end committed h = inl ((atomic.commit_ok w f h).0, (atomic.commit_ok w f h).1, refl)
      by_end (callback_failed e) h = inr (
          inl ((atomic.callback_error w f e h).0, (e, refl, inl (atomic.callback_error w f e h).1)))
      by_end (driver_failed n) h = elim (atomic.driver_error w f n h) [
        | inl unchanged ↦ inr (inl (unchanged, (driver n, refl, inr (n, refl))))
        | inr (all, fine) ↦ inr (inr (all, fine, (n, refl)))
      ]
