-- ===== src/Usercenter/IdempotencyRepository/Protection.antt =====
-- What no overlapping operation can take from a record of services/usercenter/repository/mongo/idempotency_repository.go.
use game01_server.Prelude.{
  ℕ, ◌<◌, ◌≡◌, ◌≢◌, ◌⊎◌, ◌∙◌, inl, inr, refl, sym, subst, Bool, false, not, ◌||◌, Option, none,
  some, List, [], ◌∷◌, String, arith,
}
use game01_server.Prelude.Tests.{ltb, Bool-cases}
use game01_server.Prelude.Lists.{All}
use game01_server.Prelude.Eq.{str_eq, eq_iff}
use game01_server.Storage.{keep, Collection, IsLawful}
use game01_server.Usercenter.Domain.{IdempotencyRecord, completed}
use game01_server.Usercenter.IdempotencyRepository.{
  claim_call, remove_stale, complete, release, renew, recover_expired, is_stale, is_claimable,
  is_held, is_held_live, is_abandoned, claim, finish, extend,
}
use game01_server.Usercenter.IdempotencyRepository.Calls.{
  Call, inserts, removes_stale, claims, completes, releases, renews, recovers, run_call, run,
}

-- The calls that have no right to the record: while it is not expired, those of others than its holder before the end of
-- its lease; for a completed record, all of them.
abbrev pub Foreign : IdempotencyRecord → Call → Type 0
Foreign d (inserts r) = Unit
Foreign d (removes_stale key now) =
    (now < d.expires_at) × ((d.state ≡ completed) ⊎ (now < d.lease_until))
Foreign d (claims r current now) = (d.state ≡ completed) ⊎ (now < d.lease_until)
Foreign d (completes key id response now) = (d.state ≡ completed) ⊎ (id ≢ d.reservation_id)
Foreign d (releases key id) = (d.state ≡ completed) ⊎ (id ≢ d.reservation_id)
Foreign d (renews key id lease_until now) = (d.state ≡ completed) ⊎ (id ≢ d.reservation_id)
Foreign d (recovers now) = (d.state ≡ completed) ⊎ ((now < d.lease_until) × (now < d.expires_at))

missed :
    (p : IdempotencyRecord → Bool) (d : IdempotencyRecord) → p d ≡ false → keep p (some d) ≡ none
missed p d h = rw h refl

module _ (c : Collection IdempotencyRecord) (law : IsLawful c (λ d. d.key)) where
  -- A document that fails the test of a filter is left, under the filter's key or another.
  left_alone :
      (before after : String → Option IdempotencyRecord) (k j : String)
      (p : IdempotencyRecord → Bool) (f : IdempotencyRecord → Option IdempotencyRecord)
      (d : IdempotencyRecord)
      → (k ≢ j → after j ≡ before j)
      → (after k ≡ before k)
        ⊎ ((e : IdempotencyRecord) × (keep p (before k) ≡ some e) × (after k ≡ f e))
      → p d ≡ false
      → before j ≡ some d
      → after j ≡ some d
  left_alone before after k j p f d elsewhere here fails at = elim (Bool-cases (str_eq k j)) [
    | inr differ ↦ elsewhere (λ e. ground (arith, differ, eq_iff k j, e)) ∙ at
    | inl same ↦
        let e : k ≡ j = (eq_iff k j).0 same in
        let at_k : before k ≡ some d = rw e at in
        elim here [
          | inl kept ↦ subst (λ i. after i ≡ some d) e (kept ∙ at_k)
          | inr (g, hit, _) ↦
              absurd (ground (arith, missed p d fails, subst (λ o. keep p o ≡ some g) at_k hit))
        ]
  ]

  renew_store :
      (s : c.Store) (key id : String) (lease_until now : ℕ)
      → ((renew c s key id lease_until now).0 ≡ s)
        ⊎ ((renew c s key id lease_until now).0
            ≡ (c.update_one s key (is_held_live id now) (extend lease_until)).0)
  unfolding renew
  renew_store s key id lease_until now =
      elim (Bool-cases (str_eq key "" || (str_eq id "" || not (ltb now lease_until)))) [
        | inl bad ↦ inl (rw bad refl)
        | inr fine ↦ inr (rw fine refl)
      ]

  run_call-keeps :
      (s : c.Store) (j : String) (d : IdempotencyRecord) (call : Call)
      → law.document s j ≡ some d
      → Foreign d call
      → law.document (run_call c s call) j ≡ some d
  unfolding run_call remove_stale claim_call complete release renew recover_expired
  run_call-keeps s j d (inserts r) at safe = elim (Bool-cases (str_eq r.key j)) [
    | inr differ ↦ law.insert_other s r j (λ e. ground (arith, differ, eq_iff r.key j, e)) ∙ at
    | inl same ↦
        let e : r.key ≡ j = (eq_iff r.key j).0 same in
        elim (law.insert_any s r) [
          | inl kept ↦ subst (λ i. law.document (c.insert_one s r).0 i ≡ some d) e (kept ∙ rw e at)
          | inr (free, _) ↦ absurd (ground (arith, at, subst (λ i. law.document s i ≡ none) e free))
        ]
  ]
  run_call-keeps s j d (removes_stale key now) at safe =
      left_alone (law.document s) (law.document (remove_stale c s key now).0) key j (is_stale now)
        (λ _. none) d (law.delete_other s key (is_stale now) j)
        (law.delete_any s key (is_stale now)) (ground (arith, safe)) at
  run_call-keeps s j d (claims r current now) at safe =
      left_alone (law.document s) (law.document (claim_call c s r current now).0) r.key j
        (is_claimable current.reservation_id now) (λ e. some (claim r e)) d
        (law.modify_other s r.key (is_claimable current.reservation_id now) (claim r) j)
        (law.modify_any s r.key (is_claimable current.reservation_id now) (claim r))
        (ground (arith, safe)) at
  run_call-keeps s j d (completes key id response now) at safe =
      left_alone (law.document s) (law.document (complete c s key id response now).0) key j
        (is_held_live id now) (λ e. some (finish response e)) d
        (law.update_other s key (is_held_live id now) (finish response) j)
        (law.update_any s key (is_held_live id now) (finish response))
        (ground (arith, safe, eq_iff d.reservation_id id)) at
  run_call-keeps s j d (releases key id) at safe =
      left_alone (law.document s) (law.document (release c s key id).0) key j (is_held id)
        (λ _. none) d (law.delete_other s key (is_held id) j) (law.delete_any s key (is_held id))
        (ground (arith, safe, eq_iff d.reservation_id id)) at
  run_call-keeps s j d (renews key id lease_until now) at safe =
      let kept =
        left_alone (law.document s)
          (law.document (c.update_one s key (is_held_live id now) (extend lease_until)).0) key j
          (is_held_live id now) (λ e. some (extend lease_until e)) d
          (law.update_other s key (is_held_live id now) (extend lease_until) j)
          (law.update_any s key (is_held_live id now) (extend lease_until))
          (ground (arith, safe, eq_iff d.reservation_id id)) at in
      elim (renew_store s key id lease_until now) [
        | inl same ↦ subst (λ t. law.document t j ≡ some d) (sym same) at
        | inr updated ↦ subst (λ t. law.document t j ≡ some d) (sym updated) kept
      ]
  run_call-keeps s j d (recovers now) at safe =
      left_alone (law.document s) (law.document (recover_expired c s now).0) j j (is_abandoned now)
        (λ _. none) d (λ ne. absurd (ne refl)) (law.delete_many_any s (is_abandoned now) j)
        (ground (arith, safe)) at

  -- Whatever calls of the repository run on the store, interleaved and failing in any way: a reservation stays with its
  -- holder, unchanged, through all calls that others make before its lease and its record end; and a completed record
  -- stays unchanged, with its response, until it expires.
  pub run-keeps :
      (s : c.Store) (j : String) (d : IdempotencyRecord) (calls : List Call)
      → law.document s j ≡ some d
      → All (Foreign d) calls
      → law.document (run c s calls) j ≡ some d
  unfolding run
  run-keeps s j d [] at safe = at
  run-keeps s j d (call ∷ calls) at safe =
      run-keeps (run_call c s call) j d calls (run_call-keeps s j d call at safe.0) safe.1
