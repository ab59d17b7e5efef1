-- ===== src/Gateway/SessionManager/Tokens.antt =====
-- A resume of a session (services/gateway/session/session.go) wins once, whatever steps of other calls come between.
use game01_server.Prelude.{
  ℕ, ◌<◌, ◌≡◌, ◌≢◌, ◌⊎◌, inl, inr, refl, subst, Bool, true, Option, none, some, String, arith,
}
use game01_server.Prelude.Tests.{ltb, Bool-cases, Option-cases}
use game01_server.Prelude.Eq.{string_eq, str_eq, eq_iff}
use game01_server.Prelude.Maps.{get, put, get-put_self}
use game01_server.Gateway.Session.{Record, compare_and_swap, record_eq}
use game01_server.Gateway.Session.Laws.{record_eq_epoch}
use game01_server.Gateway.SessionManager.{
  Manager, created, create_record, create_own, renewed, resume_swap, resume_own, resume_expire,
  resume_write, resume_read, own, set_preempt_handler, set_lifecycle_handler,
}
use game01_server.Gateway.SessionManager.Departure.{
  disconnect_swap, disconnect_release, disconnect_forget, expire_delete, expire_release,
}
use game01_server.Gateway.SessionManager.Epochs.{
  Evolves, Evolves-refl, Evolves-trans, compare_and_swap-Evolves, release_account-Evolves,
  del-Evolves, store_create-Evolves,
}

module _ (hash : String → String) where
  -- The steps of the calls that share the manager: each is one call of the store or one section under the lock, with
  -- whatever arguments, so that its call may have read them at any time before. New sessions have other ids than `k`: a
  -- random id is fresh.
  pub data Step (k : String) : Manager → Manager → Type 0 where
    create_records :
        (m : Manager) (r : Record) → r.session_id ≢ k → Step k m (create_record hash m r).0
    create_owns :
        (m : Manager) (claimed : Option Record) (r : Record)
        → Step k m (create_own hash m claimed r).0
    resume_swaps :
        (m : Manager) (r : Record) (next_token connection_id : String) (now : ℕ)
        → Step k m (resume_swap hash m r next_token connection_id now).0
    resume_owns :
        (m : Manager) (claimed : Option Record) (r : Record)
        → Step k m (resume_own hash m claimed r).0
    resume_expires : (m : Manager) (r : Record) → Step k m (resume_expire hash m r)
    disconnect_swaps : (m : Manager) (r : Record) (now : ℕ) → Step k m (disconnect_swap m r now).0
    disconnect_releases : (m : Manager) (r : Record) → Step k m (disconnect_release m r)
    disconnect_forgets :
        (m : Manager) (session_id account_id : String)
        → Step k m (disconnect_forget m session_id account_id)
    expire_deletes : (m : Manager) (gone : Record) → Step k m (expire_delete m gone)
    expire_releases : (m : Manager) (r : Record) → Step k m (expire_release m r)
    preempts : (m : Manager) (handler : Bool) → Step k m (set_preempt_handler m handler)
    listens : (m : Manager) (handler : Bool) → Step k m (set_lifecycle_handler m handler)

  pub data Calls (k : String) (m : Manager) : Manager → Type 0 where
    here : Calls k m m
    next : {n p : Manager} → Calls k m n → Step k n p → Calls k m p

  Step-Evolves : (k : String) {m n : Manager} → Step k m n → Evolves (get m.store k) (get n.store k)
  unfolding create_record create_own resume_swap resume_own resume_expire disconnect_swap
      disconnect_release disconnect_forget expire_delete expire_release own set_preempt_handler
      set_lifecycle_handler
  Step-Evolves k (create_records m r fresh) = store_create-Evolves m.store r k fresh
  Step-Evolves k (create_owns m claimed r) = Evolves-refl (get m.store k)
  Step-Evolves k (resume_swaps m r next_token connection_id now) =
      compare_and_swap-Evolves m.store r _ k refl (refl, inl (omega arith))
  Step-Evolves k (resume_owns m claimed r) = Evolves-refl (get m.store k)
  Step-Evolves k (resume_expires m r) =
      compare_and_swap-Evolves m.store r _ k refl (refl, inr (refl, refl))
  Step-Evolves k (disconnect_swaps m r now) =
      compare_and_swap-Evolves m.store r _ k refl (refl, inr (refl, refl))
  Step-Evolves k (disconnect_releases m r) =
      release_account-Evolves m.store r.account_id r.connection_id k
  Step-Evolves k (disconnect_forgets m session_id account_id) = Evolves-refl (get m.store k)
  Step-Evolves k (expire_deletes m gone) = del-Evolves m.store gone.session_id k
  Step-Evolves k (expire_releases m r) = release_account-Evolves m.store r.account_id "" k
  Step-Evolves k (preempts m handler) = Evolves-refl (get m.store k)
  Step-Evolves k (listens m handler) = Evolves-refl (get m.store k)

  -- Whatever steps of calls run on the manager, interleaved in any way, while no new session takes the id of a session:
  -- once removed it stays removed, and until then it keeps its account, its epoch never falls, and its token's hash
  -- changes only when the epoch rises.
  pub Calls-Evolves :
      (k : String) {m n : Manager} → Calls k m n → Evolves (get m.store k) (get n.store k)
  Calls-Evolves k {m} here = Evolves-refl (get m.store k)
  Calls-Evolves k {m} {n} (next p s) =
      Evolves-trans (get m.store k) _ (get n.store k) (Calls-Evolves k p) (Step-Evolves k s)

  resume_write_created :
      (m : Manager) (r : Record) (next_token connection_id : String) (now : ℕ) (r' : Record)
      (t : String)
      → (resume_write hash m r next_token connection_id now).1 ≡ created r' t
      → (t ≡ next_token)
        × (r' ≡ renewed hash m r t connection_id now)
        × ((c : Record) × (get m.store r.session_id ≡ some c) × (record_eq c r ≡ true))
        × ((resume_write hash m r next_token connection_id now).0
            ≡ own
                (record m { store = put m.store r.session_id r' })
                r.account_id
                connection_id
                r.session_id)
  unfolding resume_write resume_swap resume_own compare_and_swap
  resume_write_created m r next_token connection_id now r' t e =
      elim (Option-cases (get m.store r.session_id)) [
        | inl absent ↦ ground arith
        | inr (c, there) ↦ elim (Bool-cases (record_eq c r)) [
          | inr differ ↦ ground arith
          | inl same ↦ (ground arith, ground arith, (c, there, same), ground arith)
        ]
      ]

  -- A resume that succeeds found the record that it had read, before its time ran out and with its token.
  pub resume_read_created :
      (m : Manager) (r : Record) (next_token : Option String) (token connection_id : String)
      (now : ℕ) (r' : Record) (t : String)
      → (resume_read hash m r next_token token connection_id now).1 ≡ created r' t
      → (now < r.expire_at)
        × (hash token ≡ r.resume_token_hash)
        × (r' ≡ renewed hash m r t connection_id now)
        × ((c : Record) × (get m.store r.session_id ≡ some c) × (record_eq c r ≡ true))
        × ((resume_read hash m r next_token token connection_id now).0
            ≡ own
                (record m { store = put m.store r.session_id r' })
                r.account_id
                connection_id
                r.session_id)
  unfolding resume_read
  resume_read_created m r none token connection_id now r' t e = ground arith
  resume_read_created m r (some next_token) token connection_id now r' t e =
      elim (Bool-cases (ltb now r.expire_at)) [
        | inr late ↦ ground arith
        | inl early ↦ elim (Bool-cases (str_eq (hash token) r.resume_token_hash)) [
          | inr wrong ↦ ground arith
          | inl right ↦
              let (_, new, found, stored) =
                resume_write_created m r next_token connection_id now r' t (ground arith) in
              (
                ground arith,
                ground (arith, eq_iff (hash token) r.resume_token_hash),
                new,
                found,
                ground (arith, stored),
              )
        ]
      ]

  -- The session after a successful resume and any steps of calls after it: removed, or of a later epoch than before.
  pub later_epoch :
      (m : Manager) (r : Record) (next_token : Option String) (token connection_id : String)
      (now : ℕ) (r' : Record) (t : String) (n : Manager)
      → (resume_read hash m r next_token token connection_id now).1 ≡ created r' t
      → Calls r.session_id (resume_read hash m r next_token token connection_id now).0 n
      → (get n.store r.session_id ≡ none)
        ⊎ ((c : Record) × (get n.store r.session_id ≡ some c)
            × (r.connection_epoch < c.connection_epoch))
  unfolding own
  later_epoch m r next_token token connection_id now r' t n e calls =
      let (_, _, new, _, stored) =
        resume_read_created m r next_token token connection_id now r' t e in
      let v = Calls-Evolves r.session_id calls in
      let at : get (resume_read hash m r next_token token connection_id now).0.store r.session_id
          ≡ some r' =
        rw stored (get-put_self m.store r.session_id r') in
      let w : Evolves (some r') (get n.store r.session_id) =
        subst (λ o. Evolves o (get n.store r.session_id)) at v in
      elim (Option-cases (get n.store r.session_id)) [
        | inl gone ↦ inl gone
        | inr (c, there) ↦
            let u : Evolves (some r') (some c) = subst (Evolves (some r')) there w in
            inr (c, there, ground (arith, new, u))
      ]

  -- Of the calls of `Resume` that read a session at the same time, one succeeds at most: once it has, none of the
  -- others ever does, with whatever token, connection and time, and whatever steps of calls run in between.
  pub resume_wins_once :
      (m : Manager) (r : Record) (next_token : Option String) (token connection_id : String)
      (now : ℕ) (r' : Record) (t : String) (n : Manager) (next_token₂ : Option String)
      (token₂ connection_id₂ : String) (now₂ : ℕ) (r₂ : Record) (t₂ : String)
      → (resume_read hash m r next_token token connection_id now).1 ≡ created r' t
      → Calls r.session_id (resume_read hash m r next_token token connection_id now).0 n
      → (resume_read hash n r next_token₂ token₂ connection_id₂ now₂).1 ≢ created r₂ t₂
  resume_wins_once m r next_token token connection_id now r' t n next_token₂ token₂ connection_id₂
        now₂ r₂ t₂ e calls again =
      let (_, _, _, (c, there, same), _) =
        resume_read_created n r next_token₂ token₂ connection_id₂ now₂ r₂ t₂ again in
      elim (later_epoch m r next_token token connection_id now r' t n e calls) [
        | inl gone ↦ ground (arith, there, gone)
        | inr (d, here_too, lt) ↦
            let equal = record_eq_epoch c r same in
            let one : some c ≡ some d = ground (arith, there, here_too) in
            ground (arith, one, equal, lt)
      ]
