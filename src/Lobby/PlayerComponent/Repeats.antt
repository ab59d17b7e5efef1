-- ===== src/Lobby/PlayerComponent/Repeats.antt =====
-- A settlement request that is sent again, to the handler of services/lobby/components/player_component.go.
use game01_server.Prelude.{
  ℕ, ◌≡◌, ◌⊎◌, ◌∙◌, inl, inr, refl, sym, ap, Bool, true, false, some, arith,
}
use game01_server.Prelude.Tests.{if◌then◌else◌, Bool-cases}
use game01_server.Prelude.Eq.{eq_iff}
use game01_server.Prelude.Int.{ℤ, eqb_ℤ}
use game01_server.Storage.{IsLawful}
use game01_server.Storage.UnitOfWork.{SessionFactory, IsAtomic}
use game01_server.Lobby.Domain.{LobbyError, settlement_conflict, driver, Settlement}
use game01_server.Lobby.Repositories.{Outcome, done, error, find_assets}
use game01_server.Lobby.Repositories.Laws.{
  done_injective, Outcome-cases, find_by_settlement_id_cases,
}
use game01_server.Lobby.PlayerComponent.{
  Database, World, SettlementRequest, SettlementResponse, is_incomplete, requested, conflicts,
  balance_response, settlement_result, settle, settlement,
}
use game01_server.Lobby.PlayerComponent.Settlements.{
  Step, refuses, replays, credits, unconfirmed, settlement-Step,
}

eqb_ℤ_self : (a : ℤ) → eqb_ℤ a a ≡ true
eqb_ℤ_self a = ground arith

conflicts_self : (t : Settlement) → conflicts t t ≡ false
conflicts_self t = ground (
  arith,
  eqb_ℤ_self t.delta,
  eq_iff t.player_id t.player_id,
  eq_iff t.asset_type t.asset_type,
  eq_iff t.reason t.reason,
  eq_iff t.source t.source,
)

module _ (db : Database) (assets_law : IsLawful db.assets (λ a. a.player_id))
    (ledger_law : IsLawful db.ledger (λ t. t.id)) where
  settlement_result-replayed :
      (w : World db) (t : Settlement) (b : Bool) (x : SettlementResponse)
      → settlement_result db w t b ≡ done x
      → settlement_result db w t true ≡ done (record x { replayed = true })
  unfolding settlement_result
  settlement_result-replayed w t b x h =
      elim (Outcome-cases (find_assets db.assets w.assets t.player_id)) [
        | inl (e, lost) ↦ absurd (ground (arith, ap (balance_response db t b) (sym lost) ∙ h))
        | inr (a, read) ↦
            ap (balance_response db t true) read
            ∙ ap {A = SettlementResponse} (λ y. done (record y { replayed = true }))
                (done_injective _ x (ap (balance_response db t b) (sym read) ∙ h))
      ]

  -- The ledger has the settlement of a request that was answered with a balance.
  recorded :
      (w w' : World db) (r : SettlementRequest) (c now : ℕ) (o : Outcome SettlementResponse)
      (x : SettlementResponse)
      → Step db assets_law ledger_law w (requested r c) now (w', o)
      → o ≡ done x
      → (t : Settlement) × (b : Bool) × (ledger_law.document w'.ledger r.settlement_id ≡ some t)
        × (conflicts t (requested r c) ≡ false)
        × (settlement_result db w' t b ≡ done x)
  recorded w w' r c now o x (refuses e same told) h = absurd (ground (arith, told, h))
  recorded w w' r c now o x (replays t there agrees same told) h = (
    t,
    true,
    ap (λ v. ledger_law.document v.ledger r.settlement_id) same ∙ there,
    agrees,
    ap (λ v. settlement_result db v t true) same ∙ sym told ∙ h,
  )
  recorded w w' r c now o x (credits credited told) h =
      (requested r c, false, credited.1, conflicts_self (requested r c), sym told ∙ h)
  recorded w w' r c now o x (unconfirmed n credited told) h = absurd (ground (arith, told, h))

  settle_again :
      (sessions : SessionFactory (World db) LobbyError) (w : World db) (r : SettlementRequest)
      (c now : ℕ) (t : Settlement)
      → is_incomplete r ≡ false
      → ledger_law.document w.ledger r.settlement_id ≡ some t
      → conflicts t (requested r c) ≡ false
      → ((settlement db (some sessions) w (some r) c now).0 ≡ w)
        × (((settlement db (some sessions) w (some r) c now).1 ≡ settlement_result db w t true)
            ⊎ ((n : ℕ) × ((settlement db (some sessions) w (some r) c now).1 ≡ error (driver n))))
  unfolding settlement settle
  settle_again sessions w r c now t complete there agrees =
      elim (find_by_settlement_id_cases db.ledger ledger_law w.ledger r.settlement_id) [
        | inl (n, h) ↦ rw (complete, h) (refl, inr (n, refl))
        | inr (inl (free, h)) ↦ absurd (ground (arith, free, there))
        | inr (inr (existing, found, h)) ↦
            rw (complete, h) (known existing (ground (arith, found, there)))
      ]
    where
      known :
          (existing : Settlement)
          → existing ≡ t
          → ((settle db (some sessions) w (requested r c) now (done existing)).0 ≡ w)
            × (((settle db (some sessions) w (requested r c) now (done existing)).1
                  ≡ settlement_result db w t true)
                ⊎ ((n : ℕ) × ((settle db (some sessions) w (requested r c) now (done existing)).1
                      ≡ error (driver n))))
      known existing e = (
        refl,
        inl (
            ap
              (λ u.
                if conflicts u (requested r c)
                then error settlement_conflict
                else settlement_result db w u true)
              e
            ∙ rw agrees refl),
      )

  answered_complete :
      (sessions : SessionFactory (World db) LobbyError) (w : World db) (r : SettlementRequest)
      (c now : ℕ) (x : SettlementResponse)
      → (settlement db (some sessions) w (some r) c now).1 ≡ done x
      → is_incomplete r ≡ false
  unfolding settlement
  answered_complete sessions w r c now x = elim (Bool-cases (is_incomplete r)) [
    | inl bad ↦ rw (settlement, bad) (λ h. absurd (ground (arith, h)))
    | inr good ↦ λ h. good
  ]

  -- A settlement request that was answered with a balance, sent again at any later time with nothing in between, changes
  -- nothing: no second entry, no second credit. It is answered with the same balance and version, marked as replayed,
  -- unless the driver fails.
  pub settlement-repeat :
      (sessions : SessionFactory (World db) LobbyError) (atomic : IsAtomic sessions) (w : World db)
      (r : SettlementRequest) (c now c' now' : ℕ) (x : SettlementResponse)
      → (settlement db (some sessions) w (some r) c now).1 ≡ done x
      → let w' = (settlement db (some sessions) w (some r) c now).0 in
        let again = settlement db (some sessions) w' (some r) c' now' in
        (again.0 ≡ w')
        × ((again.1 ≡ done (record x { replayed = true }))
            ⊎ ((n : ℕ) × (again.1 ≡ error (driver n))))
  settlement-repeat sessions atomic w r c now c' now' x h =
      let w' = (settlement db (some sessions) w (some r) c now).0 in
      let (t, b, there, agrees, answer) =
        recorded w w' r c now _ x
          (settlement-Step db assets_law ledger_law sessions atomic w r c now) h in
      let (same, told) =
        settle_again sessions w' r c' now' t (answered_complete sessions w r c now x h) there
          agrees in
      (
        same,
        elim told [
          | inl result ↦ inl (result ∙ settlement_result-replayed w' t b x answer)
          | inr lost ↦ inr lost
        ],
      )
