-- ===== src/Lobby/PlayerComponent/DefaultPlayer.antt =====
-- What `ensurePlayer` of services/lobby/components/player_component.go answers, and what the store of players then has.
use game01_server.Prelude.{
  ℕ, ◌≡◌, inl, inr, refl, sym, subst, ap, Bool, true, false, ◌&&◌, Option, none, some, String,
  arith,
}
use game01_server.Prelude.Tests.{and_split, Bool-cases, Option-cases}
use game01_server.Prelude.Eq.{str_eq, eq_iff}
use game01_server.Prelude.Text.{trim_space}
use game01_server.Storage.{
  Reply, ok, failed, Inserted, inserted, duplicate_key, insert_failed, IsLawful,
}
use game01_server.Storage.UnitOfWork.{SessionFactory, IsAtomic, execute, execute_cases}
use game01_server.Lobby.Domain.{
  LobbyError, duplicate, validate_player, player_not_found, driver, Assets, Player,
}
use game01_server.Lobby.Repositories.{
  insert_error, Outcome, done, error, read_one, create_player, find_default_by_account_id,
  create_assets,
}
use game01_server.Lobby.Repositories.Laws.{done_injective}
use game01_server.Lobby.PlayerComponent.{Database, World}
use game01_server.Lobby.PlayerComponent.Players.{
  EnsurePlayerResponse, new_player, initial_assets, player_missing, create_snapshot,
  create_account_assets, create_account, linked, answer_player, answer_created, create_default,
  ensure_found, ensure_player,
}

module _ (db : Database) (link_player : String → String → Option ℕ)
    (law : IsLawful db.players (λ p. p.id)) where
  -- The account's default player, which the store has.
  abbrev pub IsStored : World db → String → Player → Type 0
  IsStored w account_id p =
      (p.account_id ≡ account_id)
      × (p.is_default ≡ true)
      × ((k : String) × (law.document w.players k ≡ some p))

  -- What a read by the account finds.
  find_default-IsStored :
      (w : World db) (account_id : String) (p : Player)
      → find_default_by_account_id db.players w.players account_id ≡ done p
      → IsStored w account_id p
  unfolding find_default_by_account_id
  find_default-IsStored w account_id p =
      by_reply
        (db.players.find_where w.players (λ d. str_eq d.account_id account_id && d.is_default)) refl
    where
      by_reply :
          (reply : Reply (Option Player))
          → db.players.find_where w.players (λ d. str_eq d.account_id account_id && d.is_default)
            ≡ reply
          → read_one player_not_found reply ≡ done p
          → IsStored w account_id p
      by_reply (failed n) h e = absurd (ground (arith, e))
      by_reply (ok none) h e = absurd (ground (arith, e))
      by_reply (ok (some d)) h e =
          let (passes, there) = law.find_where_ok w.players _ d h in
          let (own, default) = and_split (str_eq d.account_id account_id) _ passes in
          subst (IsStored w account_id) (done_injective d p e)
            ((eq_iff d.account_id account_id).0 own, default, there)

  -- The response names such a player, and the user centre has linked the two.
  abbrev pub Names : World db → String → EnsurePlayerResponse → Type 0
  Names w account_id x =
      (x.account_id ≡ account_id)
      × ((p : Player) × (p.id ≡ x.player_id)
          × IsStored w account_id p
          × (link_player account_id p.id ≡ none))

  answer_player-Names :
      (w : World db) (account_id : String) (created : Bool) (o : Outcome Player)
      (x : EnsurePlayerResponse)
      → ((p : Player) → o ≡ done p → IsStored w account_id p)
      → answer_player db link_player account_id created o ≡ done x
      → Names w account_id x
  unfolding answer_player
  answer_player-Names w account_id created (error e) x own = λ h. absurd (ground (arith, h))
  answer_player-Names w account_id created (done p) x own =
      by_link (link_player account_id p.id) refl
    where
      by_link :
          (l : Option ℕ)
          → link_player account_id p.id ≡ l
          → linked db link_player account_id created p l ≡ done x
          → Names w account_id x
      by_link (some e) g h = absurd (ground (arith, h))
      by_link none g h = (
        sym (ap (λ y. y.account_id) (done_injective _ x h)),
        (p, ap (λ y. y.player_id) (done_injective _ x h), own p refl, g),
      )

  create_player-stores :
      (s : db.players.Store) (p : Player)
      → (create_player db.players s p).1 ≡ none
      → law.document (create_player db.players s p).0 p.id ≡ some p
  unfolding create_player
  create_player-stores s p = elim (Option-cases (validate_player p)) [
    | inr (e, bad) ↦ rw (create_player, bad) (λ h. absurd (ground (arith, h)))
    | inl good ↦ rw (create_player, good) (by_answer (db.players.insert_one s p).1 refl)
  ]
    where
      by_answer :
          (answer : Inserted)
          → (db.players.insert_one s p).1 ≡ answer
          → insert_error duplicate answer ≡ none
          → law.document (db.players.insert_one s p).0 p.id ≡ some p
      by_answer inserted h fine = (law.insert_ok s p h).1
      by_answer duplicate_key h fine = absurd (ground (arith, fine))
      by_answer (insert_failed e) h fine = absurd (ground (arith, fine))

  create_account_assets-players :
      (w : World db) (p : Player) (a : Assets) (failure : Option LobbyError)
      → (create_account_assets db w p a failure).1 ≡ none
      → (failure ≡ none) × ((create_account_assets db w p a failure).0.players ≡ w.players)
  unfolding create_account_assets create_snapshot
  create_account_assets-players w p a (some e) h = absurd (ground (arith, h))
  create_account_assets-players w p a none h =
      (refl, snapshot_players (create_assets db.assets w.assets a).1)
    where
      snapshot_players :
          (failure : Option LobbyError)
          → (create_snapshot db
              (record w { assets = (create_assets db.assets w.assets a).0 })
              p
              a
              failure).0.players
            ≡ w.players
      snapshot_players none = refl
      snapshot_players (some e) = refl

  -- A creation without an error has stored the player.
  create_account-stores :
      (w : World db) (p : Player) (a : Assets)
      → (create_account db p a w).1 ≡ none
      → law.document (create_account db p a w).0.players p.id ≡ some p
  unfolding create_account
  create_account-stores w p a h =
      let made = create_player db.players w.players p in
      let (fine, same) =
        create_account_assets-players (record w { players = made.0 }) p a made.1 h in
      subst (λ s. law.document s p.id ≡ some p) (sym same) (create_player-stores w.players p fine)

  answer_created-Names :
      (w : World db) (account_id id : String) (now : ℕ) (failure : Option LobbyError)
      (x : EnsurePlayerResponse)
      → (failure ≡ none → law.document w.players id ≡ some (new_player id account_id now))
      → answer_created db link_player w account_id (new_player id account_id now) failure ≡ done x
      → Names w account_id x
  unfolding answer_created
  answer_created-Names w account_id id now none x stored =
      answer_player-Names w account_id true (done (new_player id account_id now)) x (λ p e.
        subst (IsStored w account_id) (done_injective _ p e) (refl, refl, (id, stored refl)))
  answer_created-Names w account_id id now (some e) x stored =
      answer_player-Names w account_id false _ x (find_default-IsStored w account_id)

  module _ (sessions : SessionFactory (World db) LobbyError) (atomic : IsAtomic sessions) where
    create_default-Names :
        (w : World db) (account_id : String) (new_id : Option String) (now : ℕ)
        (x : EnsurePlayerResponse)
        → (create_default db link_player (some sessions) w account_id new_id now).1 ≡ done x
        → Names
            (create_default db link_player (some sessions) w account_id new_id now).0
            account_id
            x
    unfolding create_default
    create_default-Names w account_id none now x h = absurd (ground (arith, h))
    create_default-Names w account_id (some id) now x h =
        let player = new_player id account_id now in
        let f = create_account db player (initial_assets id now) in
        answer_created-Names (execute driver sessions w f).0 account_id id now
          (execute driver sessions w f).1 x
          (λ fine. elim (execute_cases driver sessions atomic w f) [
            | inl (all, inside, _) ↦
                subst (λ v. law.document v.players id ≡ some player) (sym all)
                  (create_account-stores w player (initial_assets id now) inside)
            | inr (inl (_, (e, told, _))) ↦ absurd (ground (arith, told, fine))
            | inr (inr (_, _, (n, told))) ↦ absurd (ground (arith, told, fine))
          ])
          h

    ensure_found-Names :
        (w : World db) (account_id : String) (new_id : Option String) (now : ℕ)
        (x : EnsurePlayerResponse) (o : Outcome Player)
        → ((p : Player) → o ≡ done p → IsStored w account_id p)
        → (ensure_found db link_player (some sessions) w account_id new_id now o).1 ≡ done x
        → Names
            (ensure_found db link_player (some sessions) w account_id new_id now o).0
            account_id
            x
    unfolding ensure_found
    ensure_found-Names w account_id new_id now x (done p) own =
        answer_player-Names w account_id false (done p) x own
    ensure_found-Names w account_id new_id now x (error e) own =
        elim (Bool-cases (player_missing e)) [
          | inl missing ↦
              rw (ensure_found, missing) (create_default-Names w account_id new_id now x)
          | inr other ↦ rw (ensure_found, other) (λ h. absurd (ground (arith, h)))
        ]

    -- With transactions, an `ensurePlayer` that runs alone answers only with a default player of the account that was
    -- asked for, which the store of players has when it is done, found or created, and which the user centre has
    -- linked to the account.
    pub ensure_player-Names :
        (w : World db) (given : String) (new_id : Option String) (now : ℕ)
        (x : EnsurePlayerResponse)
        → (ensure_player db link_player (some sessions) w (some given) new_id now).1 ≡ done x
        → Names
            (ensure_player db link_player (some sessions) w (some given) new_id now).0
            (trim_space given)
            x
    unfolding ensure_player
    ensure_player-Names w given new_id now x = elim (Bool-cases (str_eq (trim_space given) "")) [
      | inl blank ↦ rw (ensure_player, blank) (λ h. absurd (ground (arith, h)))
      | inr named ↦
          rw (ensure_player, named)
            (ensure_found-Names w (trim_space given) new_id now x _
              (find_default-IsStored w (trim_space given)))
    ]
