-- ===== src/Usercenter/IdempotencyRepository/Reserve.antt =====
-- `Reserve` of services/usercenter/repository/mongo/idempotency_repository.go does what one atomic step on the record of its
-- key would do.
use game01_server.Prelude.{
  ℕ, ◌≡◌, ◌⊎◌, ◌∙◌, inl, inr, refl, sym, subst, ap, true, false, not, ◌||◌, Option, none, some,
  String, arith,
}
use game01_server.Prelude.Tests.{ltb, leb, ◌==◌, if◌then◌else◌, Bool-cases, Option-cases}
use game01_server.Prelude.Eq.{str_eq}
use game01_server.Storage.{
  ok, failed, Inserted, inserted, duplicate_key, insert_failed, Collection, IsLawful,
}
use game01_server.Usercenter.Domain.{
  IdempotencyRecord, idempotency_conflict, is_completed, validate_record,
}
use game01_server.Usercenter.IdempotencyRepository.Outcomes.{
  find_cases, claim_cases, remove_stale_cases,
}
use game01_server.Usercenter.IdempotencyRepository.{
  Reserved, owned, seen, reserve_error, domain, storage, find, reserve, reserve_inserted,
  reserve_taken, reserve_removed, reserve_again, reserve_current, claim_call, remove_stale,
  is_pending, claim, or_pending,
}

-- The record of the key after the step, and the answer. An expired record counts as none; a record of another command is
-- a conflict; a completed record, or one with a lease that lasts, is returned as it is; the lease of a pending record that
-- has run out goes to the caller.
pub atomic_reserve :
    Option IdempotencyRecord → IdempotencyRecord → ℕ → Option IdempotencyRecord × Reserved
atomic_reserve none r now = (some r, owned r)
atomic_reserve (some d) r now =
    if leb d.expires_at now
    then (some r, owned r)
    else (if not (str_eq d.operation r.operation) || not (str_eq d.request_hash r.request_hash)
        then (some d, reserve_error (domain idempotency_conflict))
        else (if is_completed d || (ltb now d.lease_until || not (is_pending d.state))
            then (some d, seen d)
            else (some (claim r d), owned (claim r d))))

validate_record-named :
    (r : IdempotencyRecord) (now : ℕ) → (validate_record r now).1 ≡ none → str_eq r.key "" ≡ false
unfolding validate_record
validate_record-named r now h = ground (arith, h)

module _ (c : Collection IdempotencyRecord) (law : IsLawful c (λ d. d.key)) where
  -- The driver failed, or the store and the answer are those of the step.
  abbrev pub Refines : String → c.Store × Reserved → Option IdempotencyRecord × Reserved → Type 0
  Refines k (s, r) (o, a) =
      ((e : ℕ) × (r ≡ reserve_error (storage e))) ⊎ ((law.document s k ≡ o) × (r ≡ a))

  -- The record is there and has not expired.
  reserve_current-Refines :
      (s : c.Store) (r d : IdempotencyRecord) (now : ℕ)
      → str_eq r.key "" ≡ false
      → ltb now d.expires_at ≡ true
      → law.document s r.key ≡ some d
      → Refines r.key (reserve_current c s r now d) (atomic_reserve (some d) r now)
  unfolding reserve_current atomic_reserve
  reserve_current-Refines s r d now named live at =
      let fresh : leb d.expires_at now ≡ false = ground (arith, live) in
      elim (Bool-cases
        (not (str_eq d.operation r.operation) || not (str_eq d.request_hash r.request_hash))) [
          | inl other ↦ inr (ground (arith, other, fresh, at), ground (arith, other, fresh))
          | inr same ↦ elim (Bool-cases (is_completed d || ltb now d.lease_until)) [
            | inl held ↦
                inr (ground (arith, same, held, fresh, at), ground (arith, same, held, fresh))
            | inr over ↦ elim (claim_cases c law s r d now at (ground (arith, over))) [
              | inl (e, h) ↦ inl (e, rw (same, over, h) refl)
              | inr (inl (p, h, stored)) ↦ inr (
                ground (arith, same, over, fresh, p, stored),
                ground (arith, same, over, fresh, p, h),
              )
              | inr (inr (p, h, stored)) ↦
                  elim (find_cases c law (claim_call c s r d now).0 r.key now d named stored) [
                    | inl (e, g) ↦ inl (e, rw (same, over, h, g) refl)
                    | inr (inl (_, g)) ↦ inr (
                      ground (arith, same, over, fresh, p, stored),
                      ground (arith, same, over, fresh, p, h, g),
                    )
                    | inr (inr (dead, g)) ↦ absurd (ground (arith, live, dead))
                  ]
            ]
          ]
        ]

  free-Refines :
      (s : c.Store) (r : IdempotencyRecord) (o : Option IdempotencyRecord) (now : ℕ)
      → o ≡ none
      → law.document s r.key ≡ some r
      → Refines r.key (s, owned r) (atomic_reserve o r now)
  unfolding atomic_reserve
  free-Refines s r o now e stored = inr (rw e stored, rw e refl)

  -- After the removal of an expired record nothing else holds the key.
  reserve_removed-Refines :
      (s : c.Store) (r d : IdempotencyRecord) (now : ℕ)
      → ltb now d.expires_at ≡ false
      → law.document s r.key ≡ none
      → Refines r.key (reserve_removed c s r now (ok 1)) (atomic_reserve (some d) r now)
  unfolding reserve_removed reserve_again atomic_reserve
  reserve_removed-Refines s r d now dead at = by_answer (c.insert_one s r).1 refl
    where
      by_answer :
          (done : Inserted)
          → (c.insert_one s r).1 ≡ done
          → Refines r.key
              (reserve_again c (c.insert_one s r).0 r now done)
              (atomic_reserve (some d) r now)
      by_answer inserted h =
          inr (ground (arith, dead, (law.insert_ok s r h).1), ground (arith, dead))
      by_answer (insert_failed e) h = inl (e, refl)
      by_answer duplicate_key h = absurd (law.insert_duplicate s r h at)

  removal_failed_answer :
      (s : c.Store) (r : IdempotencyRecord) (now e : ℕ)
      → (reserve_removed c s r now (failed e)).1 ≡ reserve_error (storage e)
  unfolding reserve_removed
  removal_failed_answer s r now e = refl

  reserve_taken-Refines :
      (s : c.Store) (r d : IdempotencyRecord) (now : ℕ)
      → str_eq r.key "" ≡ false
      → law.document s r.key ≡ some d
      → Refines r.key (reserve_taken c s r now (find c s r.key now)) (atomic_reserve (some d) r now)
  unfolding reserve_taken
  reserve_taken-Refines s r d now named at = elim (find_cases c law s r.key now d named at) [
    | inl (e, h) ↦ inl (e, rw h refl)
    | inr (inl (live, h)) ↦
        subst (λ f. Refines r.key (reserve_taken c s r now f) (atomic_reserve (some d) r now))
          (sym h) (reserve_current-Refines s r d now named live at)
    | inr (inr (dead, h)) ↦
        subst (λ f. Refines r.key (reserve_taken c s r now f) (atomic_reserve (some d) r now))
          (sym h)
          (elim (remove_stale_cases c law s r d now dead at) [
            | inl (e, g) ↦ inl (e, removal_failed e g)
            | inr (g, gone) ↦
                subst
                  (λ n.
                    Refines r.key (reserve_removed c (remove_stale c s r.key now).0 r now n)
                      (atomic_reserve (some d) r now))
                  (sym g) (reserve_removed-Refines (remove_stale c s r.key now).0 r d now dead gone)
          ])
  ]
    where
      removal_failed :
          (e : ℕ)
          → (remove_stale c s r.key now).1 ≡ failed e
          → (reserve_removed c
              (remove_stale c s r.key now).0
              r
              now
              (remove_stale c s r.key now).1).1
            ≡ reserve_error (storage e)
      removal_failed e g =
          ap (λ n. (reserve_removed c (remove_stale c s r.key now).0 r now n).1) g
          ∙ removal_failed_answer (remove_stale c s r.key now).0 r now e

  reserve_inserted-Refines :
      (s : c.Store) (r : IdempotencyRecord) (now : ℕ)
      → str_eq r.key "" ≡ false
      → Refines r.key
          (reserve_inserted c (c.insert_one s r).0 r now (c.insert_one s r).1)
          (atomic_reserve (law.document s r.key) r now)
  unfolding reserve_inserted
  reserve_inserted-Refines s r now named = by_answer (c.insert_one s r).1 refl
    where
      by_answer :
          (done : Inserted)
          → (c.insert_one s r).1 ≡ done
          → Refines r.key
              (reserve_inserted c (c.insert_one s r).0 r now done)
              (atomic_reserve (law.document s r.key) r now)
      by_answer inserted h =
          free-Refines (c.insert_one s r).0 r (law.document s r.key) now (law.insert_ok s r h).0
            (law.insert_ok s r h).1
      by_answer (insert_failed e) h = inl (e, refl)
      by_answer duplicate_key h = elim (Option-cases (law.document s r.key)) [
        | inl free ↦ absurd (law.insert_duplicate s r h free)
        | inr (d, at) ↦ elim (law.insert_any s r) [
          | inl same ↦
              subst
                (λ o.
                  Refines r.key
                    (reserve_taken c (c.insert_one s r).0 r now
                      (find c (c.insert_one s r).0 r.key now))
                    (atomic_reserve o r now))
                (sym at) (reserve_taken-Refines (c.insert_one s r).0 r d now named (same ∙ at))
          | inr (free, _) ↦ absurd (law.insert_duplicate s r h free)
        ]
      ]

  -- Run alone, with a valid record, a reservation identity and a lease, `Reserve` has the effect and the answer of one
  -- atomic step on the record of its key: with no live record the caller gets the key, also where an expired record has to
  -- be removed first; a record of another command is a conflict; a completed record, or one with a lease that lasts, is
  -- returned unchanged; a lease that has run out passes to the caller. Otherwise the driver failed, and so does `Reserve`.
  pub reserve-Refines :
      (s : c.Store) (given : IdempotencyRecord) (now clock : ℕ)
      → (validate_record (or_pending given) now).1 ≡ none
      → (validate_record (or_pending given) clock).1 ≡ none
      → str_eq given.reservation_id "" ≡ false
      → (given.lease_until == 0) ≡ false
      → Refines given.key
          (reserve c s given now clock)
          (atomic_reserve (law.document s given.key) (or_pending given) now)
  unfolding reserve
  reserve-Refines s given now clock valid valid_later identity lease =
      rw (identity, lease, valid, valid_later)
        (reserve_inserted-Refines s (or_pending given) now
          (validate_record-named (or_pending given) now valid))
