-- ===== src/Usercenter/Authentication/Refresh.antt =====
-- `refreshAuthenticateCore` of services/usercenter/components/domain_auth_component.go, with the repository's `Rotate`: what an
-- answer says of the tokens.
use game01_server.Prelude.{
  ℕ, ◌≡◌, ◌≢◌, ◌∙◌, inl, inr, refl, sym, subst, ap, true, ◌||◌, Option, none, some, String, arith,
}
use game01_server.Prelude.Tests.{◌==◌, and_split, Bool-cases, Option-cases}
use game01_server.Prelude.Eq.{string_eq, str_eq, eq_iff}
use game01_server.Prelude.Text.{trim_space}
use game01_server.Storage.{Reply, ok, failed, Collection, IsLawful}
use game01_server.Storage.UnitOfWork.{SessionFactory, IsAtomic}
use game01_server.Usercenter.Domain.{RefreshToken, is_usable}
use game01_server.Usercenter.TokenRepository.{
  TokenError, FoundToken, token_found, token_error, is_valid, found_token, find_valid, rotate,
}
use game01_server.Usercenter.TokenRepository.Rotation.{Rotated, rotate-Rotated}
use game01_server.Usercenter.Authentication.{
  Answer, answered, refused, RefreshRequest, TokenGrant, Draw, drawn, new_token, granted,
  replace_token, refresh_found, refresh_authenticate_core,
}

answer_or : {A : Type 0} → A → Answer A → A
answer_or x (answered y) = y
answer_or x (refused e) = x

answered_injective : {A : Type 0} (x y : A) → answered x ≡ answered y → x ≡ y
unfolding answer_or
answered_injective x y h = ap (answer_or x) h

module _ (hash_token : String → String) (token_ttl : ℕ) where
  -- A new token belongs to the account and the device it is made for, and is stored by the hash of its text.
  abbrev pub IsFor : String → String → RefreshToken × String → Type 0
  IsFor account_id install_id t =
      (t.0.account_id ≡ account_id)
      × (t.0.install_id ≡ trim_space install_id)
      × (t.0.token_hash ≡ hash_token t.1)

  drawn-IsFor :
      (account_id install_id : String) (now : ℕ) (id random : Option String)
      (t : RefreshToken × String)
      → drawn hash_token token_ttl account_id install_id now id random ≡ answered t
      → IsFor account_id install_id t
  drawn-IsFor account_id install_id now none random t h = absurd (ground (arith, h))
  drawn-IsFor account_id install_id now (some id) none t h = absurd (ground (arith, h))
  drawn-IsFor account_id install_id now (some id) (some raw) t h =
      subst (IsFor account_id install_id) (answered_injective _ t h) (refl, refl, refl)

  new_token-IsFor :
      (account_id install_id : String) (draw : Draw) (t : RefreshToken × String)
      → new_token hash_token token_ttl account_id install_id draw ≡ answered t
      → IsFor account_id install_id t
  unfolding new_token
  new_token-IsFor account_id install_id draw t =
      elim (Bool-cases (str_eq account_id "" || (str_eq install_id "" || token_ttl == 0))) [
        | inl bad ↦ rw (new_token, bad) (λ h. absurd (ground (arith, h)))
        | inr good ↦
            rw (new_token, good) (drawn-IsFor account_id install_id draw.at draw.id draw.random t)
      ]

  module _ (c : Collection RefreshToken) (law : IsLawful c (λ t. t.id))
      (sessions : SessionFactory c.Store TokenError) (atomic : IsAtomic sessions) where
    -- The replacement of a token that was found.
    abbrev pub Replaces :
        c.Store → c.Store → RefreshRequest → ℕ → RefreshToken → TokenGrant → Type 0
    Replaces s s' r now old g =
        (is_usable old now (trim_space r.install_id) ≡ true)
        × (g.account_id ≡ old.account_id)
        × ((new : RefreshToken) × IsFor old.account_id r.install_id (new, g.refresh_token)
            × (g.expires_at ≡ new.expires_at)
            × Rotated c law s s' old.id now new)

    replaced-Replaces :
        (s : c.Store) (r : RefreshRequest) (now clock : ℕ) (old : RefreshToken)
        (t : RefreshToken × String) (g : TokenGrant)
        → is_usable old now (trim_space r.install_id) ≡ true
        → IsFor old.account_id r.install_id t
        → (replace_token hash_token token_ttl c (some sessions) s now clock old (answered t)).1
          ≡ answered g
        → Replaces s
            (replace_token hash_token token_ttl c (some sessions) s now clock old (answered t)).0
            r
            now
            old
            g
    unfolding replace_token
    replaced-Replaces s r now clock old t g usable own =
        elim (Option-cases (rotate c (some sessions) s old.id now t.0 clock).1) [
          | inr (e, bad) ↦
              λ h. absurd (ground (arith, ap (granted hash_token token_ttl c old t) (sym bad) ∙ h))
          | inl fine ↦ λ h.
              let same =
                answered_injective _ g (ap (granted hash_token token_ttl c old t) (sym fine) ∙ h) in
              elim (rotate-Rotated c law sessions atomic s old.id now t.0 clock) [
                | inl (_, bad) ↦ absurd (bad fine)
                | inr rotated ↦ (
                  usable,
                  sym (ap (λ x. x.account_id) same),
                  (
                    t.0,
                    (own.0, own.1, own.2 ∙ ap (λ x. hash_token x.refresh_token) same),
                    sym (ap (λ x. x.expires_at) same),
                    rotated,
                  ),
                )
              ]
        ]

    refresh_found_lost :
        (s : c.Store) (r : RefreshRequest) (now : ℕ) (draw : Draw) (clock : ℕ) (e : TokenError)
        (g : TokenGrant)
        → (refresh_found hash_token token_ttl c
            (some sessions)
            s
            r
            now
            draw
            clock
            (token_error e)).1
          ≢ answered g
    unfolding refresh_found
    refresh_found_lost s r now draw clock e g h = ground (arith, h)

    replace_token-Replaces :
        (s : c.Store) (r : RefreshRequest) (now clock : ℕ) (old : RefreshToken) (g : TokenGrant)
        (t : Answer (RefreshToken × String))
        → is_usable old now (trim_space r.install_id) ≡ true
        → ((x : RefreshToken × String) → t ≡ answered x → IsFor old.account_id r.install_id x)
        → (replace_token hash_token token_ttl c (some sessions) s now clock old t).1 ≡ answered g
        → Replaces s
            (replace_token hash_token token_ttl c (some sessions) s now clock old t).0
            r
            now
            old
            g
    unfolding replace_token
    replace_token-Replaces s r now clock old g (refused e) usable own =
        λ h. absurd (ground (arith, h))
    replace_token-Replaces s r now clock old g (answered t) usable own =
        replaced-Replaces s r now clock old t g usable (own t refl)

    found-Replaces :
        (s : c.Store) (r : RefreshRequest) (now : ℕ) (draw : Draw) (clock : ℕ) (old : RefreshToken)
        (g : TokenGrant)
        → (refresh_found hash_token token_ttl c
            (some sessions)
            s
            r
            now
            draw
            clock
            (token_found old)).1
          ≡ answered g
        → Replaces s
            (refresh_found hash_token token_ttl c
              (some sessions)
              s
              r
              now
              draw
              clock
              (token_found old)).0
            r
            now
            old
            g
    unfolding refresh_found
    found-Replaces s r now draw clock old g =
        elim (Bool-cases (is_usable old now (trim_space r.install_id))) [
          | inr not_usable ↦ rw (refresh_found, not_usable) (λ h. absurd (ground (arith, h)))
          | inl usable ↦
              let replaced =
                replace_token hash_token token_ttl c (some sessions) s now clock old
                  (new_token hash_token token_ttl old.account_id r.install_id draw) in
              let taken : refresh_found hash_token token_ttl c (some sessions) s r now draw clock
                    (token_found old)
                  ≡ replaced =
                rw (refresh_found, usable) refl in
              subst (λ p. p.1 ≡ answered g → Replaces s p.0 r now old g) (sym taken)
                (replace_token-Replaces s r now clock old g
                  (new_token hash_token token_ttl old.account_id r.install_id draw) usable
                  (new_token-IsFor old.account_id r.install_id draw))
        ]

    find_valid-token_hash :
        (s : c.Store) (token_hash : String) (now : ℕ) (d : RefreshToken)
        → find_valid c s token_hash now ≡ token_found d
        → d.token_hash ≡ token_hash
    unfolding find_valid
    find_valid-token_hash s token_hash now d = elim (Bool-cases (str_eq token_hash "")) [
      | inl blank ↦ rw (find_valid, blank) (λ h. absurd (ground (arith, h)))
      | inr named ↦
          rw (find_valid, named) (by_reply (c.find_where s (is_valid token_hash now)) refl)
    ]
      where
        by_reply :
            (reply : Reply (Option RefreshToken))
            → c.find_where s (is_valid token_hash now) ≡ reply
            → found_token reply ≡ token_found d
            → d.token_hash ≡ token_hash
        by_reply (failed n) h e = absurd (ground (arith, e))
        by_reply (ok none) h e = absurd (ground (arith, e))
        by_reply (ok (some f)) h e =
            let (passes, _) = law.find_where_ok s (is_valid token_hash now) f h in
            let same : f ≡ d = ground (arith, e) in
            subst (λ u. u.token_hash ≡ token_hash) same
              ((eq_iff f.token_hash token_hash).0
                (and_split (str_eq f.token_hash token_hash) _ passes).0)

    -- An answer of `refreshAuthenticateCore` with a token: a token with the hash of the request's text was found, usable by the device, and has
    -- been revoked in the step that stored the new one, which was not there. The new token belongs to the same account and
    -- to the device, and its hash is that of the text in the answer.
    pub refresh-Replaces :
        (s : c.Store) (r : RefreshRequest) (now : ℕ) (draw : Draw) (clock : ℕ) (g : TokenGrant)
        → (refresh_authenticate_core hash_token token_ttl c (some sessions) s r now draw clock).1
          ≡ answered g
        → (old : RefreshToken) × (find_valid c s (hash_token r.refresh_token) now ≡ token_found old)
          × (old.token_hash ≡ hash_token r.refresh_token)
          × Replaces s
              (refresh_authenticate_core hash_token token_ttl c
                (some sessions)
                s
                r
                now
                draw
                clock).0
              r
              now
              old
              g
    unfolding refresh_authenticate_core
    refresh-Replaces s r now draw clock g =
        by_read (find_valid c s (hash_token r.refresh_token) now) refl
      where
        by_read :
            (o : FoundToken)
            → find_valid c s (hash_token r.refresh_token) now ≡ o
            → (refresh_found hash_token token_ttl c (some sessions) s r now draw clock o).1
              ≡ answered g
            → (old : RefreshToken) × (find_valid c s (hash_token r.refresh_token) now
                ≡ token_found old)
              × (old.token_hash ≡ hash_token r.refresh_token)
              × Replaces s
                  (refresh_found hash_token token_ttl c (some sessions) s r now draw clock o).0
                  r
                  now
                  old
                  g
        by_read (token_error e) h = λ k. absurd (refresh_found_lost s r now draw clock e g k)
        by_read (token_found old) h = λ k. (
          old,
          h,
          find_valid-token_hash s (hash_token r.refresh_token) now old h,
          found-Replaces s r now draw clock old g k,
        )
