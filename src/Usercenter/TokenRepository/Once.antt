-- ===== src/Usercenter/TokenRepository/Once.antt =====
-- A token that services/usercenter/repository/mongo/refresh_token_repository.go has replaced is spent for good.
use game01_server.Prelude.{
  ℕ, ◌≡◌, ◌≢◌, ◌∙◌, inl, inr, sym, subst, ap, Bool, none, some, String, arith,
}
use game01_server.Prelude.Tests.{◌==◌, Bool-cases, Option-cases}
use game01_server.Prelude.Eq.{string_eq, str_eq, eq_iff}
use game01_server.Storage.{Reply, ok, failed, Collection, IsLawful}
use game01_server.Storage.UnitOfWork.{SessionFactory, IsAtomic, execute_cases}
use game01_server.Usercenter.Domain.{RefreshToken}
use game01_server.Usercenter.TokenRepository.{
  TokenError, driver, document_error, is_unrevoked, is_rotatable, revoked, create_token,
  revoke_token, rotate_reply, rotate_callback, rotate,
}
use game01_server.Usercenter.TokenRepository.Rotation.{rotate-Rotated}

module _ (c : Collection RefreshToken) (law : IsLawful c (λ t. t.id))
    (sessions : SessionFactory c.Store TokenError) (atomic : IsAtomic sessions) where
  -- The calls that change the store.
  pub data Step : c.Store → c.Store → Type 0 where
    creates : (s : c.Store) (t : RefreshToken) (clock : ℕ) → Step s (create_token c s t clock).0
    revokes : (s : c.Store) (token_id : String) (now : ℕ) → Step s (revoke_token c s token_id now).0
    rotates :
        (s : c.Store) (token_id : String) (now : ℕ) (replacement : RefreshToken) (clock : ℕ)
        → Step s (rotate c (some sessions) s token_id now replacement clock).0

  pub data Calls (s : c.Store) : c.Store → Type 0 where
    here : Calls s s
    next : {t u : c.Store} → Calls s t → Step t u → Calls s u

  abbrev IsSpent : String → c.Store → Type 0
  IsSpent k s = (d : RefreshToken) × (law.document s k ≡ some d) × (d.revoked_at ≢ none)

  IsSpent-same :
      (k : String) (s s' : c.Store)
      → law.document s' k ≡ law.document s k
      → IsSpent k s
      → IsSpent k s'
  IsSpent-same k s s' e (d, there, set) = (d, e ∙ there, set)

  insert_one-IsSpent :
      (k : String) (s : c.Store) (t : RefreshToken) → IsSpent k s → IsSpent k (c.insert_one s t).0
  insert_one-IsSpent k s t (d, there, set) = elim (Bool-cases (str_eq t.id k)) [
    | inr other ↦
        IsSpent-same k s _ (law.insert_other s t k (λ e. ground (arith, other, e, eq_iff t.id k)))
          (d, there, set)
    | inl hit ↦
        let same : t.id ≡ k = (eq_iff t.id k).0 hit in
        elim (law.insert_any s t) [
          | inl kept ↦
              subst (λ i. IsSpent i (c.insert_one s t).0) same
                (d, kept ∙ ap (law.document s) same ∙ there, set)
          | inr (free, _) ↦ absurd (ground (arith, sym free ∙ ap (law.document s) same ∙ there))
        ]
  ]

  update_one-IsSpent :
      (k : String) (s : c.Store) (i : String) (p : RefreshToken → Bool) (now : ℕ)
      → IsSpent k s
      → IsSpent k (c.update_one s i p (revoked now)).0
  update_one-IsSpent k s i p now (d, there, set) = elim (Bool-cases (str_eq i k)) [
    | inr other ↦
        IsSpent-same k s _
          (law.update_other s i p (revoked now) k (λ e. ground (arith, other, e, eq_iff i k)))
          (d, there, set)
    | inl hit ↦
        let same : i ≡ k = (eq_iff i k).0 hit in
        elim (law.update_any s i p (revoked now)) [
          | inl kept ↦
              subst (λ j. IsSpent j (c.update_one s i p (revoked now)).0) same
                (d, kept ∙ ap (law.document s) same ∙ there, set)
          | inr (e, _, after) ↦
              subst (λ j. IsSpent j (c.update_one s i p (revoked now)).0) same
                (revoked now e, after, λ h. ground (arith, h))
        ]
  ]

  rotate_callback-IsSpent :
      (k : String) (s : c.Store) (token_id : String) (now : ℕ) (replacement : RefreshToken)
      → IsSpent k s
      → IsSpent k (rotate_callback c token_id now replacement s).0
  unfolding rotate_callback rotate_reply
  rotate_callback-IsSpent k s token_id now replacement h =
      by_reply (c.update_one s token_id (is_rotatable now) (revoked now)).1
    where
      s1 : c.Store
      s1 = (c.update_one s token_id (is_rotatable now) (revoked now)).0

      kept : IsSpent k s1
      kept = update_one-IsSpent k s token_id (is_rotatable now) now h

      by_reply : (reply : Reply ℕ) → IsSpent k (rotate_reply c replacement s1 reply).0
      by_reply (failed e) = kept
      by_reply (ok n) = elim (Bool-cases (n == 1)) [
        | inl one ↦ rw (rotate_reply, one) (insert_one-IsSpent k s1 replacement kept)
        | inr other ↦ rw (rotate_reply, other) kept
      ]

  create_token-IsSpent :
      (k : String) (s : c.Store) (t : RefreshToken) (clock : ℕ)
      → IsSpent k s
      → IsSpent k (create_token c s t clock).0
  unfolding create_token
  create_token-IsSpent k s t clock h = elim (Option-cases (document_error t clock)) [
    | inr (e, bad) ↦ rw (create_token, bad) h
    | inl good ↦ rw (create_token, good) (insert_one-IsSpent k s t h)
  ]

  rotate-IsSpent :
      (k : String) (s : c.Store) (token_id : String) (now : ℕ) (replacement : RefreshToken)
      (clock : ℕ)
      → IsSpent k s
      → IsSpent k (rotate c (some sessions) s token_id now replacement clock).0
  unfolding rotate
  rotate-IsSpent k s token_id now replacement clock h = elim (Bool-cases (str_eq token_id "")) [
    | inl unnamed ↦ rw unnamed h
    | inr named ↦ elim (Option-cases (document_error replacement clock)) [
      | inr (e, bad) ↦ rw (named, bad) h
      | inl good ↦
          rw (rotate, named, good)
            (elim (execute_cases driver sessions atomic s
              (rotate_callback c token_id now replacement)) [
                | inl (all, _, _) ↦ subst (IsSpent k) (sym all) done_spent
                | inr (inl (nothing, _)) ↦ subst (IsSpent k) (sym nothing) h
                | inr (inr (all, _, _)) ↦ subst (IsSpent k) (sym all) done_spent
              ])
    ]
  ]
    where
      done_spent : IsSpent k (rotate_callback c token_id now replacement s).0
      done_spent = rotate_callback-IsSpent k s token_id now replacement h

  -- A token that is revoked stays revoked.
  Calls-IsSpent : (k : String) {s s' : c.Store} → Calls s s' → IsSpent k s → IsSpent k s'
  unfolding revoke_token
  Calls-IsSpent k here h = h
  Calls-IsSpent k (next p (creates s t clock)) h =
      create_token-IsSpent k s t clock (Calls-IsSpent k p h)
  Calls-IsSpent k (next p (revokes s token_id now)) h =
      update_one-IsSpent k s token_id is_unrevoked now (Calls-IsSpent k p h)
  Calls-IsSpent k (next p (rotates s token_id now replacement clock)) h =
      rotate-IsSpent k s token_id now replacement clock (Calls-IsSpent k p h)

  -- A refresh token is replaced once: after a `Rotate` that ended without an error, and any calls of `Create`, `Revoke` and
  -- `Rotate` after it, with any arguments and outcomes, a `Rotate` of the same token, at any time and with any
  -- replacement, changes nothing and ends with an error. (With transactions that are atomic.)
  pub rotate_once :
      (s : c.Store) (token_id : String) (now : ℕ) (first : RefreshToken) (clock : ℕ) (s' : c.Store)
      (now' : ℕ) (second : RefreshToken) (clock' : ℕ)
      → (rotate c (some sessions) s token_id now first clock).1 ≡ none
      → Calls (rotate c (some sessions) s token_id now first clock).0 s'
      → let again = rotate c (some sessions) s' token_id now' second clock' in
        (again.0 ≡ s') × (again.1 ≢ none)
  rotate_once s token_id now first clock s' now' second clock' fine calls =
      elim (rotate-Rotated c law sessions atomic s token_id now first clock) [
        | inl (_, failed_first) ↦ absurd (failed_first fine)
        | inr ((d, _, _, after), _, _) ↦
            let (e, kept, spent) =
              Calls-IsSpent token_id calls (revoked now d, after, λ h. ground (arith, h)) in
            elim (rotate-Rotated c law sessions atomic s' token_id now' second clock') [
              | inl refused ↦ refused
              | inr ((f, before, fits, _), _, _) ↦
                  let same : some e ≡ some f = sym kept ∙ before in
                  absurd (ground (arith, fits, same, spent))
            ]
      ]
