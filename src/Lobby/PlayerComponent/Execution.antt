-- ===== src/Lobby/PlayerComponent/Execution.antt =====
-- `execute` in the settlement handler of services/lobby/components/player_component.go: what it does to the ledger and to the
-- assets where it has no error, and which errors it has.
use game01_server.Prelude.{
  String, ℕ, ◌≡◌, ◌≢◌, ◌⊎◌, ◌∙◌, inl, inr, refl, ap, Bool, true, false, none, some, arith,
}
use game01_server.Prelude.Tests.{if◌then◌else◌, Bool-cases, Option-cases}
use game01_server.Prelude.Int.{pos, eqb_ℤ}
use game01_server.Storage.{Inserted, inserted, duplicate_key, insert_failed, IsLawful}
use game01_server.Lobby.Domain.{
  LobbyError, is_settlement_applied, invalid_settlement, settlement_applied, Assets, Settlement,
  validate_settlement,
}
use game01_server.Lobby.Repositories.{
  Outcome, done, error, insert_error, is_covered, credit, apply_delta, create_settlement,
  find_by_id,
}
use game01_server.Lobby.Repositories.Laws.{
  apply_delta_cases, apply_delta_other, Outcome-cases, find_by_id_error, save_snapshot_error,
}
use game01_server.Lobby.PlayerComponent.{
  Database, World, execute_snapshot, execute_delta, execute_settlement,
}

validate_settlement_cases :
    (t : Settlement)
    → (validate_settlement t ≡ none) ⊎ (validate_settlement t ≡ some invalid_settlement)
unfolding validate_settlement
validate_settlement_cases t = by_test (Bool-cases _)
  where
    by_test :
        {b : Bool}
        → (b ≡ true) ⊎ (b ≡ false)
        → ((if b then some invalid_settlement else none) ≡ none)
          ⊎ ((if b then some invalid_settlement else none) ≡ some invalid_settlement)
    by_test (inl bad) = inr (rw bad refl)
    by_test (inr good) = inl (rw good refl)

module _ (db : Database) (assets_law : IsLawful db.assets (λ a. a.player_id))
    (ledger_law : IsLawful db.ledger (λ t. t.id)) where
  -- The settlement has been entered in the ledger, and its amount credited to the account once, and no other account has changed.
  abbrev pub Credited : World db → World db → Settlement → ℕ → Type 0
  Credited w w' t now =
      (ledger_law.document w.ledger t.id ≡ none)
      × (ledger_law.document w'.ledger t.id ≡ some t)
      × ((a : Assets) × (assets_law.document w.assets t.player_id ≡ some a)
          × (is_covered t.asset_type t.delta a ≡ true)
          × (assets_law.document w'.assets t.player_id ≡ some (credit t.asset_type t.delta now a)))
      × ((j : String)
          → t.player_id ≢ j
          → assets_law.document w'.assets j ≡ assets_law.document w.assets j)

  create_settlement_ok :
      (s : db.ledger.Store) (t : Settlement)
      → (create_settlement db.ledger s t).1 ≡ none
      → (ledger_law.document s t.id ≡ none)
        × (ledger_law.document (create_settlement db.ledger s t).0 t.id ≡ some t)
  unfolding create_settlement
  create_settlement_ok s t = elim (validate_settlement_cases t) [
    | inr bad ↦ rw (create_settlement, bad) (λ h. absurd (ground (arith, h)))
    | inl good ↦ rw (create_settlement, good) (by_answer (db.ledger.insert_one s t).1 refl)
  ]
    where
      by_answer :
          (answer : Inserted)
          → (db.ledger.insert_one s t).1 ≡ answer
          → insert_error settlement_applied answer ≡ none
          → (ledger_law.document s t.id ≡ none)
            × (ledger_law.document (db.ledger.insert_one s t).0 t.id ≡ some t)
      by_answer inserted h e = ledger_law.insert_ok s t h
      by_answer duplicate_key h e = absurd (ground (arith, e))
      by_answer (insert_failed n) h e = absurd (ground (arith, e))

  -- Only a settlement that the ledger has is refused as applied.
  create_settlement_fresh :
      (s : db.ledger.Store) (t : Settlement) (e : LobbyError)
      → ledger_law.document s t.id ≡ none
      → (create_settlement db.ledger s t).1 ≡ some e
      → is_settlement_applied e ≡ false
  unfolding create_settlement
  create_settlement_fresh s t e free = elim (validate_settlement_cases t) [
    | inr bad ↦ rw (create_settlement, bad) (λ h. ground (arith, h))
    | inl good ↦ rw (create_settlement, good) (by_answer (db.ledger.insert_one s t).1 refl)
  ]
    where
      by_answer :
          (answer : Inserted)
          → (db.ledger.insert_one s t).1 ≡ answer
          → insert_error settlement_applied answer ≡ some e
          → is_settlement_applied e ≡ false
      by_answer inserted h i = absurd (ground (arith, i))
      by_answer duplicate_key h i = absurd (ledger_law.insert_duplicate s t h free)
      by_answer (insert_failed n) h i = ground (arith, i)

  execute_snapshot-keeps :
      (w : World db) (t : Settlement) (now : ℕ) (o : Outcome Assets)
      → ((execute_snapshot db w t now o).0.ledger ≡ w.ledger)
        × ((execute_snapshot db w t now o).0.assets ≡ w.assets)
  unfolding execute_snapshot
  execute_snapshot-keeps w t now (error e) = (refl, refl)
  execute_snapshot-keeps w t now (done a) =
      elim (Outcome-cases (find_by_id db.players w.players t.player_id)) [
        | inl (e, h) ↦ rw (execute_snapshot, h) (refl, refl)
        | inr (p, h) ↦ rw (execute_snapshot, h) (refl, refl)
      ]

  execute_snapshot-error :
      (w : World db) (t : Settlement) (now : ℕ) (o : Outcome Assets) (e : LobbyError)
      → ((d : LobbyError) → o ≡ error d → is_settlement_applied d ≡ false)
      → (execute_snapshot db w t now o).1 ≡ some e
      → is_settlement_applied e ≡ false
  unfolding execute_snapshot
  execute_snapshot-error w t now (error d) e other = λ h. ground (arith, other d refl, h)
  execute_snapshot-error w t now (done a) e other =
      elim (find_by_id_error db.players w.players t.player_id) [
        | inl (d, f, g) ↦ rw (execute_snapshot, f) (λ h. ground (arith, g, h))
        | inr (player, f) ↦
            rw (execute_snapshot, f) (λ h. save_snapshot_error db.snapshots w.snapshots _ e h)
      ]

  execute_snapshot_refuses :
      (w : World db) (t : Settlement) (now : ℕ) (e : LobbyError)
      → (execute_snapshot db w t now (error e)).1 ≡ none
      → ⊥
  unfolding execute_snapshot
  execute_snapshot_refuses w t now e h = ground (arith, h)

  -- The credit of a step that went through to its end.
  execute_snapshot_ok :
      (w : World db) (t : Settlement) (now : ℕ)
      → eqb_ℤ t.delta (pos 0) ≡ false
      → let r = apply_delta db.assets w.assets t.player_id t.asset_type t.delta now in
        (execute_snapshot db (record w { assets = r.0 }) t now r.1).1 ≡ none
        → (a : Assets) × (assets_law.document w.assets t.player_id ≡ some a)
          × (is_covered t.asset_type t.delta a ≡ true)
          × (assets_law.document r.0 t.player_id ≡ some (credit t.asset_type t.delta now a))
  execute_snapshot_ok w t now nonzero =
      elim (apply_delta_cases db.assets assets_law w.assets t.player_id t.asset_type t.delta now
        nonzero) [
          | inl (e, lost) ↦ rw lost (λ h. absurd (execute_snapshot_refuses _ t now _ h))
          | inr (inl short) ↦ rw short (λ h. absurd (execute_snapshot_refuses _ t now _ h))
          | inr (inr (a, there, covered, given, stored)) ↦ λ h. (a, there, covered, stored)
        ]

  pub execute_settlement_ok :
      (t : Settlement) (now : ℕ) (w : World db)
      → eqb_ℤ t.delta (pos 0) ≡ false
      → (execute_settlement db t now w).1 ≡ none
      → Credited w (execute_settlement db t now w).0 t now
  unfolding execute_settlement execute_delta
  execute_settlement_ok t now w nonzero =
      elim (Option-cases (create_settlement db.ledger w.ledger t).1) [
        | inr (e, bad) ↦ rw (execute_delta, bad) (λ h. absurd (ground (arith, h)))
        | inl good ↦
            rw (execute_delta, good)
              (λ h.
                let entry = create_settlement_ok w.ledger t good in
                let kept = execute_snapshot-keeps _ t now _ in
                let (a, there, covered, stored) =
                  execute_snapshot_ok
                    (record w { ledger = (create_settlement db.ledger w.ledger t).0 }) t now nonzero
                    h in
                (
                  entry.0,
                  ap (λ l. ledger_law.document l t.id) kept.0 ∙ entry.1,
                  (a, there, covered, ap (λ l. assets_law.document l t.player_id) kept.1 ∙ stored),
                  λ j other.
                      ap (λ l. assets_law.document l j) kept.1
                      ∙ apply_delta_other db.assets assets_law w.assets t.player_id t.asset_type
                          t.delta now j nonzero other,
                ))
      ]

  apply_delta_error :
      (w : World db) (t : Settlement) (now : ℕ)
      → eqb_ℤ t.delta (pos 0) ≡ false
      → (d : LobbyError)
      → (apply_delta db.assets w.assets t.player_id t.asset_type t.delta now).1 ≡ error d
      → is_settlement_applied d ≡ false
  apply_delta_error w t now nonzero d h =
      elim (apply_delta_cases db.assets assets_law w.assets t.player_id t.asset_type t.delta now
        nonzero) [
          | inl (e, lost) ↦ ground (arith, lost, h)
          | inr (inl short) ↦ ground (arith, short, h)
          | inr (inr (a, _, _, given, _)) ↦ ground (arith, given, h)
        ]

  -- A settlement that is not in the ledger is not refused as applied.
  pub execute_settlement_fresh :
      (t : Settlement) (now : ℕ) (w : World db) (e : LobbyError)
      → eqb_ℤ t.delta (pos 0) ≡ false
      → ledger_law.document w.ledger t.id ≡ none
      → (execute_settlement db t now w).1 ≡ some e
      → is_settlement_applied e ≡ false
  unfolding execute_settlement execute_delta
  execute_settlement_fresh t now w e nonzero free =
      elim (Option-cases (create_settlement db.ledger w.ledger t).1) [
        | inr (d, bad) ↦
            rw (execute_delta, bad)
              (λ h. ground (arith, h, create_settlement_fresh w.ledger t d free bad))
        | inl good ↦
            rw (execute_delta, good)
              (λ h.
                execute_snapshot-error _ t now _ e
                  (apply_delta_error
                    (record w { ledger = (create_settlement db.ledger w.ledger t).0 }) t now
                    nonzero)
                  h)
      ]
