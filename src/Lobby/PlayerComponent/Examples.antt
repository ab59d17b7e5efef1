-- ===== src/Lobby/PlayerComponent/Examples.antt =====
-- Concrete requests to the lobby (services/lobby), with collections in memory.
use game01_server.Prelude.{
  ℕ, ◌≡◌, ◌≢◌, ◌⊎◌, inl, inr, refl, sym, subst, ap, Bool, true, false, Option, none, some, List, [],
  ◌∷◌, String, arith,
}
use game01_server.Prelude.Tests.{Bool-cases}
use game01_server.Prelude.Eq.{string_eq, str_eq}
use game01_server.Prelude.Text.{trim_space}
use game01_server.Prelude.Int.{ℤ, pos, negsuc, neg_part}
use game01_server.Prelude.Maps.{Map}
use game01_server.Storage.{Collection, IsLawful}
use game01_server.Storage.Memory.{
  memory, memory-IsLawful, memory-IsLawful-document, memory_sessions, memory_sessions-IsAtomic,
}
use game01_server.Lobby.Domain.{
  Assets, Player, Settlement, Snapshot, driver, balance, state_version,
}
use game01_server.Lobby.Repositories.{
  Outcome, done, error, SnapshotDocument, is_covered, save_snapshot, find_snapshot,
}
use game01_server.Lobby.PlayerComponent.{Database, World, SettlementRequest, requested, settlement}
use game01_server.Lobby.PlayerComponent.Settlements.{Step, settlement-Step}
use game01_server.Lobby.PlayerComponent.Repeats.{settlement-repeat}
use game01_server.Lobby.PlayerComponent.Solvency.{IsSolvent, least, settlement-IsSolvent}
use game01_server.Lobby.PlayerComponent.Players.{new_player, initial_assets, ensure_player}
use game01_server.Lobby.PlayerComponent.DefaultPlayer.{Names, ensure_player-Names}
use game01_server.Lobby.PlayerComponent.Restore.{state_message, save_snapshot-find_snapshot}

abbrev database : Database
database = record {
  players = memory (λ p. p.id);
  assets = memory (λ a. a.player_id);
  ledger = memory (λ t. t.id);
  snapshots = memory (λ d. d.player_id);
}

abbrev one_player : World database
one_player = record {
  players = ("p1", new_player "p1" "a1" 5) ∷ [];
  assets = ("p1", initial_assets "p1" 5) ∷ [];
  ledger = [];
  snapshots = [];
}

abbrev reward : SettlementRequest
reward = record {
  settlement_id = "s1";
  player_id = "p1";
  asset_type = "gold";
  delta = pos 30;
  reason = "win";
  source = "battle";
}

settlement-Step_example :
    Step database
      (memory-IsLawful (λ a. a.player_id))
      (memory-IsLawful (λ t. t.id))
      one_player
      (requested reward 10)
      11
      (settlement database (some memory_sessions) one_player (some reward) 10 11)
settlement-Step_example =
    settlement-Step database (memory-IsLawful (λ a. a.player_id)) (memory-IsLawful (λ t. t.id))
      memory_sessions memory_sessions-IsAtomic one_player reward 10 11

-- An account with enough, and a debit of it.
abbrev rich : Assets
rich = record (initial_assets "p1" 5) { currency = ("gold", pos 50) ∷ [] }

abbrev fee : SettlementRequest
fee = record reward { settlement_id = "s2"; delta = negsuc 29; reason = "fee" }

rich-IsSolvent : IsSolvent (some rich)
unfolding balance game01_server.Prelude.Maps.get
rich-IsSolvent j = ground (arith, Bool-cases (str_eq "gold" j))

-- The debit is made.
fee_example :
    (settlement database
      (some memory_sessions)
      (record one_player { assets = ("p1", rich) ∷ [] })
      (some fee)
      10
      11).1
    ≡ done (record {
      settlement_id = "s2";
      player_id = "p1";
      asset_type = "gold";
      balance = pos 20;
      asset_version = 2;
      replayed = false;
    })
unfolding settlement game01_server.Lobby.Repositories.find_by_settlement_id
    game01_server.Prelude.Maps.get game01_server.Storage.UnitOfWork.execute
    game01_server.Lobby.Repositories.create_settlement
    game01_server.Lobby.Domain.validate_settlement game01_server.Lobby.Repositories.apply_delta
    game01_server.Lobby.Repositories.find_by_id save_snapshot
    game01_server.Lobby.Repositories.find_assets game01_server.Prelude.Maps.put balance
    game01_server.Lobby.Repositories.credit game01_server.Prelude.Int.◌+ℤ◌
fee_example = refl

settlement-IsSolvent_example : IsSolvent (
    (memory-IsLawful (λ a. a.player_id)).document
      (settlement database
        (some memory_sessions)
        (record one_player { assets = ("p1", rich) ∷ [] })
        (some fee)
        10
        11).0.assets
      "p1")
unfolding game01_server.Prelude.Maps.get
settlement-IsSolvent_example =
    settlement-IsSolvent database (memory-IsLawful (λ a. a.player_id)) (memory-IsLawful (λ t. t.id))
      memory_sessions memory_sessions-IsAtomic (record one_player { assets = ("p1", rich) ∷ [] })
      fee 10 11 "p1" (λ e. ground (arith, ap neg_part e))
      (subst IsSolvent (sym (memory-IsLawful-document (λ a. a.player_id) (("p1", rich) ∷ []) "p1"))
        rich-IsSolvent)

settlement-repeat_example :
    let w' = (settlement database (some memory_sessions) one_player (some reward) 10 11).0 in
    let again = settlement database (some memory_sessions) w' (some reward) 20 21 in
    (again.0 ≡ w')
    × ((again.1
          ≡ done (record {
            settlement_id = "s1";
            player_id = "p1";
            asset_type = "gold";
            balance = pos 30;
            asset_version = 2;
            replayed = true;
          }))
        ⊎ ((n : ℕ) × (again.1 ≡ error (driver n))))
unfolding settlement game01_server.Lobby.Repositories.find_by_settlement_id
    game01_server.Prelude.Maps.get game01_server.Storage.UnitOfWork.execute
    game01_server.Lobby.Repositories.create_settlement
    game01_server.Lobby.Domain.validate_settlement game01_server.Lobby.Repositories.apply_delta
    game01_server.Lobby.Repositories.find_by_id save_snapshot
    game01_server.Lobby.Repositories.find_assets game01_server.Prelude.Maps.put balance
    game01_server.Lobby.Repositories.credit game01_server.Prelude.Int.◌+ℤ◌
settlement-repeat_example =
    settlement-repeat database (memory-IsLawful (λ a. a.player_id)) (memory-IsLawful (λ t. t.id))
      memory_sessions memory_sessions-IsAtomic one_player reward 10 11 20 21
      (record {
        settlement_id = "s1";
        player_id = "p1";
        asset_type = "gold";
        balance = pos 30;
        asset_version = 2;
        replayed = false;
      })
      refl

-- The least number of int64 as the amount of a debit passes the filter.
overdraft_covered : is_covered "gold" least (initial_assets "p1" 5) ≡ true
unfolding game01_server.Prelude.Maps.get
overdraft_covered = refl

-- An account without a player gets one.
ensure_player-Names_example :
    Names database
      (λ a p. none)
      (memory-IsLawful (λ p. p.id))
      (ensure_player database
        (λ a p. none)
        (some memory_sessions)
        one_player
        (some " a2")
        (some "p2")
        7).0
      (trim_space " a2")
      (record { account_id = "a2"; player_id = "p2"; created = true })
unfolding ensure_player trim_space game01_server.Lobby.Repositories.find_default_by_account_id
    game01_server.Storage.Memory.first_where game01_server.Storage.UnitOfWork.execute
    game01_server.Lobby.Repositories.create_player game01_server.Lobby.Repositories.create_assets
    game01_server.Lobby.Domain.validate_player save_snapshot game01_server.Prelude.Maps.get
    game01_server.Prelude.Maps.put
ensure_player-Names_example =
    ensure_player-Names database (λ a p. none) (memory-IsLawful (λ p. p.id)) memory_sessions
      memory_sessions-IsAtomic one_player " a2" (some "p2") 7
      (record { account_id = "a2"; player_id = "p2"; created = true }) refl

abbrev snapshot : Snapshot
snapshot = record {
  player = new_player "p1" "a1" 5;
  assets = initial_assets "p1" 5;
  schema_version = 1;
  created_at = 5;
}

-- What is left of it in its document.
abbrev restored : Snapshot
restored = record {
  player = record (new_player "p1" "a1" 0) { is_default = false };
  assets = initial_assets "p1" 0;
  schema_version = 1;
  created_at = 5;
}

save_snapshot-find_snapshot_example :
    (state_message restored ≡ state_message snapshot)
    × (state_version restored ≡ state_version snapshot)
unfolding save_snapshot find_snapshot game01_server.Prelude.Maps.get game01_server.Prelude.Maps.put
    game01_server.Lobby.Repositories.snapshot_of
save_snapshot-find_snapshot_example =
    save_snapshot-find_snapshot (λ m. done "") database (memory-IsLawful (λ d. d.player_id)) []
      snapshot restored refl refl
