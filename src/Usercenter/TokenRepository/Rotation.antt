-- ===== src/Usercenter/TokenRepository/Rotation.antt =====
-- `Rotate` of services/usercenter/repository/mongo/refresh_token_repository.go replaces a token once.
use game01_server.Prelude.{
  ℕ, ◌≡◌, ◌≢◌, ◌⊎◌, ◌∙◌, inl, inr, refl, sym, subst, ap, Bool, true, Option, none, some, String,
  arith,
}
use game01_server.Prelude.Tests.{◌==◌, Bool-cases, Option-cases}
use game01_server.Prelude.Eq.{string_eq, str_eq}
use game01_server.Storage.{
  Reply, ok, failed, Inserted, inserted, duplicate_key, insert_failed, keep, Collection, IsLawful,
}
use game01_server.Storage.UnitOfWork.{SessionFactory, IsAtomic, execute_cases}
use game01_server.Usercenter.Domain.{RefreshToken}
use game01_server.Usercenter.TokenRepository.{
  TokenError, driver, document_error, insert_error, is_rotatable, revoked, rotate_reply,
  rotate_callback, rotate,
}

module _ (c : Collection RefreshToken) (law : IsLawful c (λ t. t.id)) where
  -- The token with the identity was usable, and has been revoked; the replacement, which was not there, is stored.
  abbrev pub Rotated : c.Store → c.Store → String → ℕ → RefreshToken → Type 0
  Rotated s s' token_id now replacement =
      ((d : RefreshToken) × (law.document s token_id ≡ some d)
        × (is_rotatable now d ≡ true)
        × (law.document s' token_id ≡ some (revoked now d)))
      × (law.document s replacement.id ≡ none)
      × (law.document s' replacement.id ≡ some replacement)

  keep-document :
      (p : RefreshToken → Bool) (o : Option RefreshToken) (d : RefreshToken)
      → keep p o ≡ some d
      → (o ≡ some d) × (p d ≡ true)
  keep-document p none d h = absurd (ground (arith, h))
  keep-document p (some e) d h = elim (Bool-cases (p e)) [
    | inl hit ↦ (ground (arith, hit, h), ap p (ground (arith, hit, h)) ∙ hit)
    | inr miss ↦ absurd (ground (arith, miss, h))
  ]

  insert_error-none :
      (s : c.Store) (t : RefreshToken)
      → insert_error (c.insert_one s t).1 ≡ none
      → (c.insert_one s t).1 ≡ inserted
  insert_error-none s t = by_answer (c.insert_one s t).1
    where
      by_answer : (answer : Inserted) → insert_error answer ≡ none → answer ≡ inserted
      by_answer inserted h = refl
      by_answer duplicate_key h = absurd (ground (arith, h))
      by_answer (insert_failed e) h = absurd (ground (arith, h))

  -- The revocation and the insertion that follows it.
  stored-Rotated :
      (token_id : String) (now n : ℕ) (replacement : RefreshToken) (s : c.Store)
      → let u = c.update_one s token_id (is_rotatable now) (revoked now) in
        u.1 ≡ ok n
        → (n == 1) ≡ true
        → insert_error (c.insert_one u.0 replacement).1 ≡ none
        → Rotated s (c.insert_one u.0 replacement).0 token_id now replacement
  stored-Rotated token_id now n replacement s h one fine =
      elim (law.update_ok s token_id (is_rotatable now) (revoked now) n h) [
        | inl (_, zero) ↦ absurd (ground (arith, zero, one))
        | inr (d, hit, _, after) ↦
            let s1 = (c.update_one s token_id (is_rotatable now) (revoked now)).0 in
            let (there, fits) = keep-document (is_rotatable now) (law.document s token_id) d hit in
            let (free, stored) =
              law.insert_ok s1 replacement (insert_error-none s1 replacement fine) in
            let apart : token_id ≢ replacement.id = λ e.
              absurd (ground (arith, after, subst (λ i. law.document s1 i ≡ none) (sym e) free)) in
            (
              (
                d,
                there,
                fits,
                law.insert_other s1 replacement token_id (λ e. apart (sym e)) ∙ after,
              ),
              sym (
                    law.update_other s token_id (is_rotatable now) (revoked now) replacement.id
                      apart)
                  ∙ free,
              stored,
            )
      ]

  rotate_callback-Rotated :
      (token_id : String) (now : ℕ) (replacement : RefreshToken) (s : c.Store)
      → (rotate_callback c token_id now replacement s).1 ≡ none
      → Rotated s (rotate_callback c token_id now replacement s).0 token_id now replacement
  unfolding rotate_callback rotate_reply
  rotate_callback-Rotated token_id now replacement s =
      by_reply (c.update_one s token_id (is_rotatable now) (revoked now)).1 refl
    where
      s1 : c.Store
      s1 = (c.update_one s token_id (is_rotatable now) (revoked now)).0

      by_reply :
          (reply : Reply ℕ)
          → (c.update_one s token_id (is_rotatable now) (revoked now)).1 ≡ reply
          → (rotate_reply c replacement s1 reply).1 ≡ none
          → Rotated s (rotate_reply c replacement s1 reply).0 token_id now replacement
      by_reply (failed e) h = λ fine. absurd (ground (arith, fine))
      by_reply (ok n) h = elim (Bool-cases (n == 1)) [
        | inl one ↦ rw (rotate_reply, one) (stored-Rotated token_id now n replacement s h one)
        | inr other ↦ rw (rotate_reply, other) (λ fine. absurd (ground (arith, fine)))
      ]

  module _ (sessions : SessionFactory c.Store TokenError) (atomic : IsAtomic sessions) where
    -- `Rotate` either changes nothing, or replaces the token in one step, in which the old token is revoked and the new one
    -- stored.
    pub rotate-Rotated :
        (s : c.Store) (token_id : String) (now : ℕ) (replacement : RefreshToken) (clock : ℕ)
        → let r = rotate c (some sessions) s token_id now replacement clock in
          ((r.0 ≡ s) × (r.1 ≢ none)) ⊎ Rotated s r.0 token_id now replacement
    unfolding rotate
    rotate-Rotated s token_id now replacement clock = elim (Bool-cases (str_eq token_id "")) [
      | inl unnamed ↦ inl (rw unnamed (refl, λ h. ground (arith, h)))
      | inr named ↦ elim (Option-cases (document_error replacement clock)) [
        | inr (e, bad) ↦ inl (rw (named, bad) (refl, λ h. ground (arith, h)))
        | inl good ↦
            rw (named, good)
              (elim (execute_cases driver sessions atomic s
                (rotate_callback c token_id now replacement)) [
                  | inl (all, fine, _) ↦ inr (
                      subst (λ v. Rotated s v token_id now replacement) (sym all)
                        (rotate_callback-Rotated token_id now replacement s fine))
                  | inr (inl (nothing, (e, told, _))) ↦ inl (nothing, λ h. ground (arith, told, h))
                  | inr (inr (all, fine, _)) ↦ inr (
                      subst (λ v. Rotated s v token_id now replacement) (sym all)
                        (rotate_callback-Rotated token_id now replacement s fine))
                ])
      ]
    ]
