-- ===== src/Lobby/PlayerComponent/Solvency.antt =====
-- The settlement handler of services/lobby/components/player_component.go does not overdraw an account.
use game01_server.Prelude.{
  ℕ, suc, ◌≡◌, ◌≢◌, ◌⊎◌, ◌∙◌, inl, inr, refl, sym, subst, ap, Bool, true, false, Option, none, some,
  String, arith,
}
use game01_server.Prelude.Tests.{◌==◌, ==_iff, if◌then◌else◌, Bool-cases}
use game01_server.Prelude.Eq.{string_eq, str_eq, eq_iff}
use game01_server.Prelude.Maps.{get}
use game01_server.Prelude.Int.{ℤ, pos, negsuc, ◌+ℤ◌, ◌≤ℤ◌, leb_ℤ, ltb_ℤ}
use game01_server.Storage.{IsLawful}
use game01_server.Storage.UnitOfWork.{SessionFactory, IsAtomic}
use game01_server.Lobby.Domain.{LobbyError, Assets, balance, or_zero}
use game01_server.Lobby.Repositories.{Outcome, is_covered, credit, negate, at_least}
use game01_server.Lobby.Repositories.Laws.{credit-balance}
use game01_server.Lobby.PlayerComponent.{
  Database, World, SettlementRequest, SettlementResponse, requested, settlement,
}
use game01_server.Lobby.PlayerComponent.Execution.{Credited}
use game01_server.Lobby.PlayerComponent.Settlements.{
  Step, refuses, replays, credits, unconfirmed, settlement-Step,
}

-- No balance is negative.
abbrev pub IsSolvent : Option Assets → Type 0
IsSolvent none = Unit
IsSolvent (some a) = (j : String) → pos 0 ≤ℤ balance a j

-- The least number of int64 is its own negation, and passes the filter with any balance.
abbrev pub least : ℤ
least = negsuc 9223372036854775807

negate_below : (n : ℕ) → (n == 9223372036854775807) ≡ false → negate (negsuc n) ≡ pos (suc n)
negate_below n h = rw h refl

covered_debit : (b : ℤ) (n : ℕ) → leb_ℤ (pos (suc n)) b ≡ true → pos 0 ≤ℤ (b +ℤ negsuc n)
unfolding ◌+ℤ◌
covered_debit b n h = ground arith

credited : (b : ℤ) (n : ℕ) → pos 0 ≤ℤ b → pos 0 ≤ℤ (b +ℤ pos n)
unfolding ◌+ℤ◌
credited b n h = ground arith

debit_tested : (n : ℕ) (b : Bool) → (if ltb_ℤ (negsuc n) (pos 0) then b else true) ≡ b
debit_tested n b = ground arith

covered_sum :
    (delta : ℤ) (o : Option ℤ)
    → delta ≢ least
    → (if ltb_ℤ delta (pos 0) then at_least (negate delta) o else true) ≡ true
    → pos 0 ≤ℤ or_zero o
    → pos 0 ≤ℤ (or_zero o +ℤ delta)
covered_sum (pos n) o ne covered solvent = credited (or_zero o) n solvent
covered_sum (negsuc n) none ne covered solvent = absurd (ground (arith, covered))
covered_sum (negsuc n) (some b) ne covered solvent = elim (Bool-cases (n == 9223372036854775807)) [
  | inl extreme ↦ absurd (ne (ap negsuc ((==_iff n 9223372036854775807).0 extreme)))
  | inr fine ↦
      covered_debit b n
        (subst (λ i. leb_ℤ i b ≡ true) (negate_below n fine) (sym (debit_tested n _) ∙ covered))
]

own_balance :
    (asset_type : String) (delta : ℤ) (a : Assets)
    → delta ≢ least
    → is_covered asset_type delta a ≡ true
    → pos 0 ≤ℤ balance a asset_type
    → pos 0 ≤ℤ (balance a asset_type +ℤ delta)
unfolding balance
own_balance asset_type delta a ne covered solvent =
    covered_sum delta (get a.currency asset_type) ne covered solvent

credit-IsSolvent :
    (asset_type : String) (delta : ℤ) (now : ℕ) (a : Assets)
    → delta ≢ least
    → is_covered asset_type delta a ≡ true
    → IsSolvent (some a)
    → IsSolvent (some (credit asset_type delta now a))
credit-IsSolvent asset_type delta now a ne covered solvent j =
    subst (λ b. pos 0 ≤ℤ b) (sym (credit-balance asset_type delta now a j))
      (by_name (Bool-cases (str_eq asset_type j)))
  where
    by_name :
        (str_eq asset_type j ≡ true) ⊎ (str_eq asset_type j ≡ false)
        → pos 0 ≤ℤ (if str_eq asset_type j then balance a asset_type +ℤ delta else balance a j)
    by_name (inl same) = rw same (own_balance asset_type delta a ne covered (solvent asset_type))
    by_name (inr other) = rw other (solvent j)

module _ (db : Database) (assets_law : IsLawful db.assets (λ a. a.player_id))
    (ledger_law : IsLawful db.ledger (λ t. t.id)) where
  Credited-IsSolvent :
      (w w' : World db) (r : SettlementRequest) (c now : ℕ) (j : String)
      → r.delta ≢ least
      → Credited db assets_law ledger_law w w' (requested r c) now
      → IsSolvent (assets_law.document w.assets j)
      → IsSolvent (assets_law.document w'.assets j)
  Credited-IsSolvent w w' r c now j ne (_, _, (a, before, covered, after), others) solvent =
      elim (Bool-cases (str_eq r.player_id j)) [
        | inr differ ↦
            subst IsSolvent
              (sym (others j (λ e. ground (arith, differ, (eq_iff r.player_id j).1 e)))) solvent
        | inl same ↦
            let e : r.player_id ≡ j = (eq_iff r.player_id j).0 same in
            let own : IsSolvent (some a) =
              subst IsSolvent (ap (λ i. assets_law.document w.assets i) (sym e) ∙ before) solvent in
            subst IsSolvent (sym (ap (λ i. assets_law.document w'.assets i) (sym e) ∙ after))
              (credit-IsSolvent r.asset_type r.delta now a ne covered own)
      ]

  -- A settlement that runs alone leaves no account with a negative balance that had none, whatever its outcome, unless its amount is the
  -- least number of int64.
  pub settlement-IsSolvent :
      (sessions : SessionFactory (World db) LobbyError) (atomic : IsAtomic sessions) (w : World db)
      (r : SettlementRequest) (c now : ℕ) (j : String)
      → r.delta ≢ least
      → IsSolvent (assets_law.document w.assets j)
      → IsSolvent (assets_law.document (settlement db (some sessions) w (some r) c now).0.assets j)
  settlement-IsSolvent sessions atomic w r c now j ne solvent =
      by_step (settlement-Step db assets_law ledger_law sessions atomic w r c now)
    where
      by_step :
          {v : World db} {o : Outcome SettlementResponse}
          → Step db assets_law ledger_law w (requested r c) now (v, o)
          → IsSolvent (assets_law.document v.assets j)
      by_step (refuses e same told) =
          subst (λ v. IsSolvent (assets_law.document v.assets j)) (sym same) solvent
      by_step (replays t there agrees same told) =
          subst (λ v. IsSolvent (assets_law.document v.assets j)) (sym same) solvent
      by_step {v} (credits done_once told) = Credited-IsSolvent w v r c now j ne done_once solvent
      by_step {v} (unconfirmed n done_once told) =
          Credited-IsSolvent w v r c now j ne done_once solvent
