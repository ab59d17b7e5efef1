-- ===== src/Lobby/Repositories/Laws.antt =====
-- What the calls of services/lobby/repository/mongo change: the balance of an account (asset_repository.go), and the ledger
-- (ledger_repository.go).
use game01_server.Prelude.{
  ℕ, ◌≡◌, ◌≢◌, ◌⊎◌, ◌∙◌, inl, inr, refl, sym, ap, Bool, true, false, Option, none, some, String,
  arith,
}
use game01_server.Prelude.Tests.{if◌then◌else◌, Bool-cases}
use game01_server.Prelude.Eq.{str_eq, string_eq}
use game01_server.Prelude.Maps.{get, get-put}
use game01_server.Prelude.Int.{ℤ, pos, ◌+ℤ◌, eqb_ℤ}
use game01_server.Storage.{Reply, ok, failed, keep, Collection, IsLawful}
use game01_server.Lobby.Domain.{
  LobbyError, insufficient_currency, driver, player_not_found, settlement_not_found,
  is_settlement_applied, Player, Snapshot, Assets, balance, or_zero, Settlement,
}
use game01_server.Lobby.Repositories.{
  Outcome, done, error, every, read_one, is_covered, credit, apply_delta, find_by_id,
  find_by_settlement_id, reply_error, SnapshotDocument, snapshot_document, save_snapshot,
}

credit-currency :
    (asset_type : String) (delta : ℤ) (now : ℕ) (a : Assets) (j : String)
    → get (credit asset_type delta now a).currency j
      ≡ (if str_eq asset_type j then some (balance a asset_type +ℤ delta) else get a.currency j)
unfolding credit
credit-currency asset_type delta now a j =
    get-put a.currency asset_type (balance a asset_type +ℤ delta) j

keep-every : {D : Type 0} (d o : Option D) → o ≡ keep every d → d ≡ o
keep-every none o h = sym h
keep-every (some d) o h = sym h

-- The credit changes one balance, and the version.
pub credit-balance :
    (asset_type : String) (delta : ℤ) (now : ℕ) (a : Assets) (j : String)
    → balance (credit asset_type delta now a) j
      ≡ (if str_eq asset_type j then balance a asset_type +ℤ delta else balance a j)
unfolding balance
credit-balance asset_type delta now a j =
    ap or_zero (credit-currency asset_type delta now a j)
    ∙ by_name (Bool-cases (str_eq asset_type j))
  where
    by_name :
        (str_eq asset_type j ≡ true) ⊎ (str_eq asset_type j ≡ false)
        → or_zero
            (if str_eq asset_type j then some (balance a asset_type +ℤ delta) else get a.currency j)
          ≡ (if str_eq asset_type j
              then balance a asset_type +ℤ delta
              else or_zero (get a.currency j))
    by_name (inl same) = rw same refl
    by_name (inr differ) = rw differ refl

keep-some :
    (p : Assets → Bool) (o : Option Assets) (a : Assets)
    → keep p o ≡ some a
    → (o ≡ some a) × (p a ≡ true)
keep-some p none a h = absurd (ground (arith, h))
keep-some p (some b) a h = elim (Bool-cases (p b)) [
  | inl hit ↦ (ground (arith, hit, h), ap p (ground (arith, hit, h)) ∙ hit)
  | inr miss ↦ absurd (ground (arith, miss, h))
]

module _ (c : Collection Assets) (law : IsLawful c (λ a. a.player_id)) where
  -- The ends of `ApplyDelta` of an amount that is not 0.
  pub apply_delta_cases :
      (s : c.Store) (player_id asset_type : String) (delta : ℤ) (now : ℕ)
      → eqb_ℤ delta (pos 0) ≡ false
      → ((e : ℕ) × ((apply_delta c s player_id asset_type delta now).1 ≡ error (driver e)))
        ⊎ ((apply_delta c s player_id asset_type delta now).1 ≡ error insufficient_currency)
        ⊎ ((a : Assets) × (law.document s player_id ≡ some a)
            × (is_covered asset_type delta a ≡ true)
            × ((apply_delta c s player_id asset_type delta now).1
                ≡ done (credit asset_type delta now a))
            × (law.document (apply_delta c s player_id asset_type delta now).0 player_id
                ≡ some (credit asset_type delta now a)))
  unfolding apply_delta
  apply_delta_cases s player_id asset_type delta now nonzero = rw nonzero (by_reply _ refl)
    where
      by_reply :
          (reply : Reply (Option Assets))
          → (c.find_one_and_update s player_id
              (is_covered asset_type delta)
              (credit asset_type delta now)).1
            ≡ reply
          → ((e : ℕ) × (read_one insufficient_currency reply ≡ error (driver e)))
            ⊎ (read_one insufficient_currency reply ≡ error insufficient_currency)
            ⊎ ((a : Assets) × (law.document s player_id ≡ some a)
                × (is_covered asset_type delta a ≡ true)
                × (read_one insufficient_currency reply ≡ done (credit asset_type delta now a))
                × (law.document
                      (c.find_one_and_update s player_id
                        (is_covered asset_type delta)
                        (credit asset_type delta now)).0
                      player_id
                    ≡ some (credit asset_type delta now a)))
      by_reply (failed e) h = inl (e, refl)
      by_reply (ok o) h =
          elim (law.modify_ok s player_id (is_covered asset_type delta)
            (credit asset_type delta now) o h) [
              | inl (_, nothing) ↦
                  inr (inl (ap (λ x. read_one insufficient_currency (ok x)) nothing))
              | inr (a, hit, given, stored) ↦
                  let (there, fits) =
                    keep-some (is_covered asset_type delta) (law.document s player_id) a hit in
                  inr (
                    inr (
                      a,
                      there,
                      fits,
                      ap (λ x. read_one insufficient_currency (ok x)) given,
                      stored,
                    ))
            ]

  pub apply_delta_other :
      (s : c.Store) (player_id asset_type : String) (delta : ℤ) (now : ℕ) (j : String)
      → eqb_ℤ delta (pos 0) ≡ false
      → player_id ≢ j
      → law.document (apply_delta c s player_id asset_type delta now).0 j ≡ law.document s j
  unfolding apply_delta
  apply_delta_other s player_id asset_type delta now j nonzero other = rw nonzero (
      law.modify_other s player_id (is_covered asset_type delta) (credit asset_type delta now) j
        other)

done_or {ℓ} : {A : Type ℓ} → A → Outcome A → A
done_or x (error e) = x
done_or x (done y) = y

pub done_injective {ℓ} : {A : Type ℓ} (a b : A) → done a ≡ done b → a ≡ b
unfolding done_or
done_injective a b h = ap (done_or a) h

pub Outcome-cases {ℓ} :
    {A : Type ℓ} (o : Outcome A) → ((e : LobbyError) × (o ≡ error e)) ⊎ ((a : A) × (o ≡ done a))
Outcome-cases (error e) = inl (e, refl)
Outcome-cases (done a) = inr (a, refl)

-- Neither the read of a player nor the write of a snapshot says that a settlement has been applied.
pub find_by_id_error :
    (c : Collection Player) (s : c.Store) (id : String)
    → ((e : LobbyError) × (find_by_id c s id ≡ error e) × (is_settlement_applied e ≡ false))
      ⊎ ((p : Player) × (find_by_id c s id ≡ done p))
unfolding find_by_id
find_by_id_error c s id = by_reply (c.find_one s id every)
  where
    by_reply :
        (reply : Reply (Option Player))
        → ((e : LobbyError) × (read_one player_not_found reply ≡ error e)
            × (is_settlement_applied e ≡ false))
          ⊎ ((p : Player) × (read_one player_not_found reply ≡ done p))
    by_reply (failed n) = inl (driver n, refl, refl)
    by_reply (ok none) = inl (player_not_found, refl, refl)
    by_reply (ok (some p)) = inr (p, refl)

pub save_snapshot_error :
    (c : Collection SnapshotDocument) (s : c.Store) (snapshot : Snapshot) (e : LobbyError)
    → (save_snapshot c s snapshot).1 ≡ some e
    → is_settlement_applied e ≡ false
unfolding save_snapshot
save_snapshot_error c s snapshot e = by_reply (c.replace_one s (snapshot_document snapshot)).1
  where
    by_reply : (reply : Reply ℕ) → reply_error reply ≡ some e → is_settlement_applied e ≡ false
    by_reply (ok n) h = absurd (ground (arith, h))
    by_reply (failed n) h = ground (arith, h)

pub find_by_settlement_id_cases :
    (c : Collection Settlement) (law : IsLawful c (λ t. t.id)) (s : c.Store) (id : String)
    → ((n : ℕ) × (find_by_settlement_id c s id ≡ error (driver n)))
      ⊎ ((law.document s id ≡ none) × (find_by_settlement_id c s id ≡ error settlement_not_found))
      ⊎ ((t : Settlement) × (law.document s id ≡ some t) × (find_by_settlement_id c s id ≡ done t))
unfolding find_by_settlement_id
find_by_settlement_id_cases c law s id = by_reply (c.find_one s id every) refl
  where
    by_reply :
        (reply : Reply (Option Settlement))
        → c.find_one s id every ≡ reply
        → ((n : ℕ) × (read_one settlement_not_found reply ≡ error (driver n)))
          ⊎ ((law.document s id ≡ none)
              × (read_one settlement_not_found reply ≡ error settlement_not_found))
          ⊎ ((t : Settlement) × (law.document s id ≡ some t)
              × (read_one settlement_not_found reply ≡ done t))
    by_reply (failed n) h = inl (n, refl)
    by_reply (ok none) h = inr (inl (keep-every _ none (law.find_ok s id every none h), refl))
    by_reply (ok (some t)) h =
        inr (inr (t, keep-every _ (some t) (law.find_ok s id every (some t) h), refl))
