-- ===== src/Usercenter/Commands/Record.antt =====
-- The record of a key through the calls that `executeReserved` of services/usercenter/components/domain_auth_component.go makes
-- on it.
use game01_server.Prelude.{
  ℕ, ◌≡◌, ◌∙◌, inl, inr, refl, ap, Bool, not, ◌||◌, Option, none, some, String, arith,
}
use game01_server.Prelude.Tests.{ltb, Bool-cases}
use game01_server.Prelude.Eq.{str_eq}
use game01_server.Storage.{Reply, ok, failed, keep, Collection, IsLawful}
use game01_server.Usercenter.Domain.{IdempotencyRecord, idempotency_conflict, completed}
use game01_server.Usercenter.IdempotencyRepository.{
  renew, complete, is_held_live, extend, finish, matched,
}

kept_same :
    {d e : IdempotencyRecord} (q : IdempotencyRecord → Bool) (o : Option IdempotencyRecord)
    → o ≡ some d
    → keep q o ≡ some e
    → e ≡ d
kept_same q none at hit = absurd (ground (arith, at))
kept_same q (some x) at hit = ground (arith, at, hit, Bool-cases (q x))

-- The record of a key, for the same command and with the same expiry.
abbrev pub Carries : IdempotencyRecord → Option IdempotencyRecord → Type 0
Carries r o =
    (d : IdempotencyRecord) × (o ≡ some d)
    × (d.operation ≡ r.operation)
    × (d.request_hash ≡ r.request_hash)
    × (d.expires_at ≡ r.expires_at)

module _ (c : Collection IdempotencyRecord) (law : IsLawful c (λ d. d.key)) where
  update-Carries :
      (r : IdempotencyRecord) (s : c.Store) (key : String) (p : IdempotencyRecord → Bool)
      (until : ℕ)
      → Carries r (law.document s key)
      → Carries r (law.document (c.update_one s key p (extend until)).0 key)
  update-Carries r s key p until (d, there, op, hash, expiry) =
      elim (law.update_any s key p (extend until)) [
        | inl same ↦ (d, same ∙ there, op, hash, expiry)
        | inr (e, hit, stored) ↦
            let known : e ≡ d = kept_same p (law.document s key) there hit in
            (
              extend until e,
              stored,
              ap (λ x. x.operation) known ∙ op,
              ap (λ x. x.request_hash) known ∙ hash,
              ap (λ x. x.expires_at) known ∙ expiry,
            )
      ]

  pub renew-Carries :
      (r : IdempotencyRecord) (s : c.Store) (key id : String) (until now : ℕ)
      → Carries r (law.document s key)
      → Carries r (law.document (renew c s key id until now).0 key)
  unfolding renew
  renew-Carries r s key id until now carried =
      elim (Bool-cases (str_eq key "" || (str_eq id "" || not (ltb now until)))) [
        | inl bad ↦ rw bad carried
        | inr fine ↦ rw fine (update-Carries r s key (is_held_live id now) until carried)
      ]

  -- `Complete` without an error leaves the response in the record.
  pub complete-Carries :
      (r : IdempotencyRecord) (s : c.Store) (key id response : String) (now : ℕ)
      → Carries r (law.document s key)
      → (complete c s key id response now).1 ≡ none
      → (d : IdempotencyRecord) × (law.document (complete c s key id response now).0 key ≡ some d)
        × (d.operation ≡ r.operation)
        × (d.request_hash ≡ r.request_hash)
        × (d.expires_at ≡ r.expires_at)
        × (d.state ≡ completed)
        × (d.response ≡ response)
  unfolding complete
  complete-Carries r s key id response now (d, there, op, hash, expiry) =
      by_reply (c.update_one s key (is_held_live id now) (finish response)).1 refl
    where
      by_reply :
          (reply : Reply ℕ)
          → (c.update_one s key (is_held_live id now) (finish response)).1 ≡ reply
          → matched c idempotency_conflict reply ≡ none
          → (x : IdempotencyRecord) × (law.document
                (c.update_one s key (is_held_live id now) (finish response)).0
                key
              ≡ some x)
            × (x.operation ≡ r.operation)
            × (x.request_hash ≡ r.request_hash)
            × (x.expires_at ≡ r.expires_at)
            × (x.state ≡ completed)
            × (x.response ≡ response)
      by_reply (failed n) h fine = absurd (ground (arith, fine))
      by_reply (ok n) h fine =
          elim (law.update_ok s key (is_held_live id now) (finish response) n h) [
            | inl (_, zero) ↦ absurd (ground (arith, zero, fine))
            | inr (e, hit, _, stored) ↦
                let known : e ≡ d =
                  kept_same (is_held_live id now) (law.document s key) there hit in
                (
                  finish response e,
                  stored,
                  ap (λ x. x.operation) known ∙ op,
                  ap (λ x. x.request_hash) known ∙ hash,
                  ap (λ x. x.expires_at) known ∙ expiry,
                  refl,
                  refl,
                )
          ]
