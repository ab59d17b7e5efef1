-- ===== src/Gateway/SessionManager/Rows.antt =====
-- The calls of services/gateway/session/session.go as rows of their steps.
use game01_server.Prelude.{
  ℕ, ◌≡◌, ◌≢◌, ◌⊎◌, ◌∙◌, ap, inl, inr, refl, sym, subst, Option, none, some, String, arith,
}
use game01_server.Prelude.Tests.{ltb, Bool-cases, Option-cases}
use game01_server.Prelude.Eq.{str_eq}
use game01_server.Gateway.Session.{Record}
use game01_server.Gateway.SessionManager.{
  Manager, create, create_with, create_record, create_own, new_record, renewed, resume_swap,
  resume_own, resume_expire, resume_write, resume_read,
}
use game01_server.Gateway.SessionManager.Departure.{
  disconnect_swap, disconnect_release, disconnect_forget, disconnect_write, disconnect_read,
  expire_delete, expire_release, expire_read,
}
use game01_server.Gateway.SessionManager.Tokens.{
  create_records, create_owns, resume_swaps, resume_owns, resume_expires, disconnect_swaps,
  disconnect_releases, disconnect_forgets, expire_deletes, expire_releases, Calls, next,
}

disconnect_read_cases :
    (m : Manager) (r : Record) (session_id connection_id : String) (now epoch : ℕ)
    → let m' = (disconnect_read m r session_id connection_id now epoch).0 in
      let m₁ = (disconnect_swap m r now).0 in
      (m' ≡ m)
      ⊎ (m' ≡ m₁)
      ⊎ (m' ≡ disconnect_forget (disconnect_release m₁ r) session_id r.account_id)
unfolding disconnect_read disconnect_write
disconnect_read_cases m r session_id connection_id now epoch = ground arith

expire_read_cases :
    (m : Manager) (gone r : Record) (now : ℕ)
    → ((expire_read m gone r now).0 ≡ m)
      ⊎ ((expire_read m gone r now).0 ≡ expire_release (expire_delete m gone) r)
unfolding expire_read
expire_read_cases m gone r now = ground arith

module _ (hash : String → String) where
  resume_read_cases :
      (m : Manager) (r : Record) (next_token : Option String) (token connection_id : String)
      (now : ℕ)
      → let m' = (resume_read hash m r next_token token connection_id now).0 in
        (m' ≡ m)
        ⊎ (m' ≡ resume_expire hash m r)
        ⊎ ((t : String) × (m' ≡ (resume_swap hash m r t connection_id now).0))
        ⊎ ((t : String) × (c : Option Record) × (q : Record) × (m'
              ≡ (resume_own hash (resume_swap hash m r t connection_id now).0 c q).0))
  unfolding resume_read resume_write
  resume_read_cases m r none token connection_id now = ground arith
  resume_read_cases m r (some t) token connection_id now = elim (Bool-cases (ltb now r.expire_at)) [
    | inr late ↦ inr (inl (ground arith))
    | inl early ↦ elim (Bool-cases (str_eq (hash token) r.resume_token_hash)) [
      | inr wrong ↦ inl (ground arith)
      | inl right ↦ inr (
          inr (elim (Option-cases (resume_swap hash m r t connection_id now).1) [
            | inl lost ↦ inl (t, ground arith)
            | inr (swapped, h) ↦ elim (Bool-cases swapped) [
              | inl won ↦ inr (t, none, renewed hash m r t connection_id now, ground arith)
              | inr conflict ↦ inl (t, ground arith)
            ]
          ]))
    ]
  ]

  pub resume_read-Calls :
      (k : String) {m n : Manager} (r : Record) (next_token : Option String)
      (token connection_id : String) (now : ℕ)
      → Calls hash k m n
      → Calls hash k m (resume_read hash n r next_token token connection_id now).0
  resume_read-Calls k {m} {n} r next_token token connection_id now p =
      elim (resume_read_cases n r next_token token connection_id now) [
        | inl same ↦ subst (Calls hash k m) (sym same) p
        | inr (inl e) ↦ subst (Calls hash k m) (sym e) (next p (resume_expires n r))
        | inr (inr (inl (t, e))) ↦
            subst (Calls hash k m) (sym e) (next p (resume_swaps n r t connection_id now))
        | inr (inr (inr (t, c, q, e))) ↦
            subst (Calls hash k m) (sym e)
              (next (next p (resume_swaps n r t connection_id now)) (resume_owns _ c q))
      ]

  create_cases :
      (m : Manager) (sid token : Option String) (account_id connection_id player_id : String)
      (now : ℕ)
      → let m' = (create hash m sid token account_id connection_id player_id now).0 in
        (m' ≡ m)
        ⊎ ((r : Record) × (sid ≡ some r.session_id)
            × (m' ≡ (create_own hash (create_record hash m r).0 none r).0))
  unfolding create create_with
  create_cases m none token account_id connection_id player_id now = inl refl
  create_cases m (some i) none account_id connection_id player_id now = inl refl
  create_cases m (some i) (some t) account_id connection_id player_id now =
      let r = new_record hash m i t account_id connection_id player_id now in
      elim (Option-cases (create_record hash m r).1) [
        | inl stored ↦ inr (r, refl, ground arith)
        | inr (e, taken) ↦ inl (ground arith)
      ]

  pub create-Calls :
      (k : String) {m n : Manager} (sid token : Option String)
      (account_id connection_id player_id : String) (now : ℕ)
      → sid ≢ some k
      → Calls hash k m n
      → Calls hash k m (create hash n sid token account_id connection_id player_id now).0
  create-Calls k {m} {n} sid token account_id connection_id player_id now fresh p =
      elim (create_cases n sid token account_id connection_id player_id now) [
        | inl same ↦ subst (Calls hash k m) (sym same) p
        | inr (r, named, e) ↦ subst (Calls hash k m) (sym e) (
            next (next p (create_records n r (λ h. fresh (named ∙ ap some h))))
              (create_owns _ none r))
      ]

  -- The tail of a disconnect, which stops at a step or takes them all.
  pub disconnect_read-Calls :
      (k : String) {m n : Manager} (r : Record) (session_id connection_id : String) (now epoch : ℕ)
      → Calls hash k m n
      → Calls hash k m (disconnect_read n r session_id connection_id now epoch).0
  disconnect_read-Calls k {m} {n} r session_id connection_id now epoch p =
      let swapped = next p (disconnect_swaps n r now) in
      elim (disconnect_read_cases n r session_id connection_id now epoch) [
        | inl same ↦ subst (Calls hash k m) (sym same) p
        | inr (inl e) ↦ subst (Calls hash k m) (sym e) swapped
        | inr (inr e) ↦ subst (Calls hash k m) (sym e) (
            next (next swapped (disconnect_releases _ r))
              (disconnect_forgets _ session_id r.account_id))
      ]

  pub expire_read-Calls :
      (k : String) {m n : Manager} (gone r : Record) (now : ℕ)
      → Calls hash k m n
      → Calls hash k m (expire_read n gone r now).0
  expire_read-Calls k {m} {n} gone r now p = elim (expire_read_cases n gone r now) [
    | inl same ↦ subst (Calls hash k m) (sym same) p
    | inr e ↦
        subst (Calls hash k m) (sym e) (next (next p (expire_deletes n gone)) (expire_releases _ r))
  ]
