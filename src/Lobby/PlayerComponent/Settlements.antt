-- ===== src/Lobby/PlayerComponent/Settlements.antt =====
-- The settlement handler of services/lobby/components/player_component.go, with the unit of work that services/lobby/module.go
-- gives it: what a settlement does to the ledger and to the assets, and what it does the second time.
use game01_server.Prelude.{
  ℕ, ◌≡◌, ◌∙◌, inl, inr, refl, sym, subst, ap, true, false, none, some, arith,
}
use game01_server.Prelude.Tests.{Bool-cases}
use game01_server.Prelude.Int.{pos, eqb_ℤ}
use game01_server.Storage.{IsLawful}
use game01_server.Storage.UnitOfWork.{SessionFactory, IsAtomic, execute, execute_cases}
use game01_server.Lobby.Domain.{
  LobbyError, is_settlement_applied, invalid_settlement, settlement_conflict, settlement_not_found,
  driver, Settlement,
}
use game01_server.Lobby.Repositories.{Outcome, done, error, find_by_settlement_id}
use game01_server.Lobby.Repositories.Laws.{find_by_settlement_id_cases}
use game01_server.Lobby.PlayerComponent.Execution.{
  Credited, execute_settlement_ok, execute_settlement_fresh,
}
use game01_server.Lobby.PlayerComponent.{
  Database, World, SettlementRequest, is_incomplete, requested, conflicts, settlement_result,
  execute_settlement, settled, settle, settlement, SettlementResponse,
}

module _ (db : Database) (assets_law : IsLawful db.assets (λ a. a.player_id))
    (ledger_law : IsLawful db.ledger (λ t. t.id)) where
  -- What a settlement can do.
  pub data Step (w : World db) (t : Settlement) (now : ℕ)
      (r : World db × Outcome SettlementResponse) : Type 0 where
    refuses : (e : LobbyError) → r.0 ≡ w → r.1 ≡ error e → Step w t now r
    replays :
        (existing : Settlement)
        → ledger_law.document w.ledger t.id ≡ some existing
        → conflicts existing t ≡ false
        → r.0 ≡ w
        → r.1 ≡ settlement_result db w existing true
        → Step w t now r
    credits :
        Credited db assets_law ledger_law w r.0 t now
        → r.1 ≡ settlement_result db r.0 t false
        → Step w t now r
    -- The answer to the commit was lost.
    unconfirmed :
        (n : ℕ)
        → Credited db assets_law ledger_law w r.0 t now
        → r.1 ≡ error (driver n)
        → Step w t now r

  module _ (sessions : SessionFactory (World db) LobbyError) (atomic : IsAtomic sessions) where
    settled_error :
        (v : World db) (t : Settlement) (e : LobbyError)
        → is_settlement_applied e ≡ false
        → settled db v t (some e) ≡ error e
    settled_error v t e h = rw h refl

    settle_fresh-Step :
        (w : World db) (t : Settlement) (now : ℕ)
        → eqb_ℤ t.delta (pos 0) ≡ false
        → ledger_law.document w.ledger t.id ≡ none
        → Step w t now (settle db (some sessions) w t now (error settlement_not_found))
    unfolding settle
    settle_fresh-Step w t now nonzero free =
        let v = (execute driver sessions w (execute_settlement db t now)).0 in
        elim (execute_cases driver sessions atomic w (execute_settlement db t now)) [
          | inl (all, fine, silent) ↦
              credits
                (subst (λ v. Credited db assets_law ledger_law w v t now) (sym all)
                  (execute_settlement_ok db assets_law ledger_law t now w nonzero fine))
                (ap (settled db v t) silent)
          | inr (inl (nothing, (e, told, cause))) ↦ refuses e nothing (
              ap (settled db v t) told
              ∙ settled_error v t e (elim cause [
                | inl own ↦
                    execute_settlement_fresh db assets_law ledger_law t now w e nonzero free own
                | inr (n, from_driver) ↦ ap is_settlement_applied from_driver
              ]))
          | inr (inr (all, fine, (n, told))) ↦
              unconfirmed n
                (subst (λ v. Credited db assets_law ledger_law w v t now) (sym all)
                  (execute_settlement_ok db assets_law ledger_law t now w nonzero fine))
                (ap (settled db v t) told)
        ]

    settle_known-Step :
        (w : World db) (t : Settlement) (now : ℕ) (existing : Settlement)
        → ledger_law.document w.ledger t.id ≡ some existing
        → Step w t now (settle db (some sessions) w t now (done existing))
    unfolding settle
    settle_known-Step w t now existing there = elim (Bool-cases (conflicts existing t)) [
      | inl other ↦ refuses settlement_conflict refl (rw other refl)
      | inr same ↦ replays existing there same refl (rw same refl)
    ]

    settle_lost-Step :
        (w : World db) (t : Settlement) (now n : ℕ)
        → Step w t now (settle db (some sessions) w t now (error (driver n)))
    unfolding settle
    settle_lost-Step w t now n = refuses (driver n) refl refl

    settle-Step :
        (w : World db) (t : Settlement) (now : ℕ)
        → eqb_ℤ t.delta (pos 0) ≡ false
        → Step w t now
            (settle db (some sessions) w t now (find_by_settlement_id db.ledger w.ledger t.id))
    settle-Step w t now nonzero =
        elim (find_by_settlement_id_cases db.ledger ledger_law w.ledger t.id) [
          | inl (n, h) ↦ rw h (settle_lost-Step w t now n)
          | inr (inl (free, h)) ↦ rw h (settle_fresh-Step w t now nonzero free)
          | inr (inr (existing, there, h)) ↦ rw h (settle_known-Step w t now existing there)
        ]

    -- A settlement request that runs alone, with no other call between its read of the ledger and its answer, either is
    -- refused and changes nothing; or finds its identity in the ledger with the same contents, changes nothing and is
    -- answered with the account that is then read, as replayed; or is entered in the ledger, which did not have it, and
    -- credited to its account once, in one step with no other account changed. In the last case the answer is made from
    -- the account that is read after the commit, with its new balance or the error of that read; or the driver lost the
    -- answer to the commit, and that is the error.
    pub settlement-Step :
        (w : World db) (r : SettlementRequest) (created_at now : ℕ)
        → Step w
            (requested r created_at)
            now
            (settlement db (some sessions) w (some r) created_at now)
    unfolding settlement
    settlement-Step w r created_at now = elim (Bool-cases (is_incomplete r)) [
      | inl bad ↦ refuses invalid_settlement (rw bad refl) (rw bad refl)
      | inr good ↦ rw good (settle-Step w (requested r created_at) now (nonzero good))
    ]
      where
        nonzero : is_incomplete r ≡ false → eqb_ℤ r.delta (pos 0) ≡ false
        nonzero good = ground (arith, good)
