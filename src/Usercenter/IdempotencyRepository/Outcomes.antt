-- ===== src/Usercenter/IdempotencyRepository/Outcomes.antt =====
-- How the calls in `Reserve` of services/usercenter/repository/mongo/idempotency_repository.go end, by the document of the key.
use game01_server.Prelude.{
  ℕ, ◌≡◌, ◌⊎◌, ◌∙◌, inl, inr, refl, sym, ap, true, false, Option, none, some, String, arith,
}
use game01_server.Prelude.Tests.{ltb, if◌then◌else◌, Bool-cases}
use game01_server.Prelude.Eq.{str_eq, eq_iff}
use game01_server.Storage.{Reply, ok, failed, keep, Collection, IsLawful}
use game01_server.Usercenter.Domain.{IdempotencyRecord}
use game01_server.Usercenter.IdempotencyRepository.{
  found, find_error, not_found, storage, find, claim_call, remove_stale, is_live, is_stale,
  is_claimable, is_pending, claim, found_of,
}

module _ (c : Collection IdempotencyRecord) (law : IsLawful c (λ d. d.key)) where
  pub find_cases :
      (s : c.Store) (k : String) (now : ℕ) (d : IdempotencyRecord)
      → str_eq k "" ≡ false
      → law.document s k ≡ some d
      → ((e : ℕ) × (find c s k now ≡ find_error (storage e)))
        ⊎ ((ltb now d.expires_at ≡ true) × (find c s k now ≡ found d))
        ⊎ ((ltb now d.expires_at ≡ false) × (find c s k now ≡ find_error not_found))
  unfolding find
  find_cases s k now d named at = rw named (reply_cases (c.find_one s k (is_live now)) refl)
    where
      reply_cases :
          (reply : Reply (Option IdempotencyRecord))
          → c.find_one s k (is_live now) ≡ reply
          → ((e : ℕ) × (found_of c reply ≡ find_error (storage e)))
            ⊎ ((ltb now d.expires_at ≡ true) × (found_of c reply ≡ found d))
            ⊎ ((ltb now d.expires_at ≡ false) × (found_of c reply ≡ find_error not_found))
      reply_cases (failed e) h = inl (e, refl)
      reply_cases (ok o) h =
          let kept : o ≡ keep (is_live now) (some d) =
            law.find_ok s k (is_live now) o h ∙ ap (keep (is_live now)) at in
          elim (Bool-cases (ltb now d.expires_at)) [
            | inl live ↦ inr (inl (live, ground (arith, kept, live)))
            | inr dead ↦ inr (inr (dead, ground (arith, kept, dead)))
          ]

  -- The three ends of the claim of a record that has run out: it failed, it took the record, or the record could not be
  -- claimed and is as it was.
  pub claim_cases :
      (s : c.Store) (r d : IdempotencyRecord) (now : ℕ)
      → law.document s r.key ≡ some d
      → ltb now d.lease_until ≡ false
      → ((e : ℕ) × ((claim_call c s r d now).1 ≡ failed e))
        ⊎ ((is_pending d.state ≡ true)
            × ((claim_call c s r d now).1 ≡ ok (some (claim r d)))
            × (law.document (claim_call c s r d now).0 r.key ≡ some (claim r d)))
        ⊎ ((is_pending d.state ≡ false)
            × ((claim_call c s r d now).1 ≡ ok none)
            × (law.document (claim_call c s r d now).0 r.key ≡ some d))
  unfolding claim_call
  claim_cases s r d now at over =
      reply_cases (c.find_one_and_update s r.key (is_claimable d.reservation_id now) (claim r)).1
        refl
    where
      test :
          keep (is_claimable d.reservation_id now) (law.document s r.key)
          ≡ (if is_pending d.state then some d else none)
      test =
          ap (keep (is_claimable d.reservation_id now)) at
          ∙ ground (arith, over, eq_iff d.reservation_id d.reservation_id)

      reply_cases :
          (reply : Reply (Option IdempotencyRecord))
          → (claim_call c s r d now).1 ≡ reply
          → ((e : ℕ) × ((claim_call c s r d now).1 ≡ failed e))
            ⊎ ((is_pending d.state ≡ true)
                × ((claim_call c s r d now).1 ≡ ok (some (claim r d)))
                × (law.document (claim_call c s r d now).0 r.key ≡ some (claim r d)))
            ⊎ ((is_pending d.state ≡ false)
                × ((claim_call c s r d now).1 ≡ ok none)
                × (law.document (claim_call c s r d now).0 r.key ≡ some d))
      reply_cases (failed e) h = inl (e, h)
      reply_cases (ok o) h =
          elim (law.modify_ok s r.key (is_claimable d.reservation_id now) (claim r) o h) [
            | inl (missing, nothing) ↦ inr (
                inr (
                  ground (arith, sym test ∙ missing),
                  h ∙ ap ok nothing,
                  elim (law.modify_any s r.key (is_claimable d.reservation_id now) (claim r)) [
                    | inl same ↦ same ∙ at
                    | inr (d', hit, _) ↦ absurd (ground (arith, missing, hit))
                  ],
                ))
            | inr (d', hit, given, stored) ↦
                let same : d' ≡ d = ground (arith, sym test ∙ hit) in
                inr (
                  inl (
                    ground (arith, sym test ∙ hit),
                    h ∙ ap ok (given ∙ ap (λ x. some (claim r x)) same),
                    stored ∙ ap (λ x. some (claim r x)) same,
                  ))
          ]

  -- The record has expired: it is removed.
  pub remove_stale_cases :
      (s : c.Store) (r d : IdempotencyRecord) (now : ℕ)
      → ltb now d.expires_at ≡ false
      → law.document s r.key ≡ some d
      → ((e : ℕ) × ((remove_stale c s r.key now).1 ≡ failed e))
        ⊎ (((remove_stale c s r.key now).1 ≡ ok 1)
            × (law.document (remove_stale c s r.key now).0 r.key ≡ none))
  unfolding remove_stale
  remove_stale_cases s r d now dead at = by_reply (c.delete_one s r.key (is_stale now)).1 refl
    where
      test : keep (is_stale now) (law.document s r.key) ≡ some d
      test = ap (keep (is_stale now)) at ∙ ground (arith, dead)

      by_reply :
          (reply : Reply ℕ)
          → (c.delete_one s r.key (is_stale now)).1 ≡ reply
          → ((e : ℕ) × ((remove_stale c s r.key now).1 ≡ failed e))
            ⊎ (((remove_stale c s r.key now).1 ≡ ok 1)
                × (law.document (remove_stale c s r.key now).0 r.key ≡ none))
      by_reply (failed e) h = inl (e, h)
      by_reply (ok n) h = elim (law.delete_ok s r.key (is_stale now) n h) [
        | inl (missing, _) ↦ absurd (ground (arith, missing, test))
        | inr (_, _, one, gone) ↦ inr (h ∙ ap ok one, gone)
      ]
