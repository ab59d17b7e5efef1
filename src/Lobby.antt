-- ===== src/Lobby.antt =====
-- The lobby service (services/lobby): players, their assets, the ledger of settlements, and snapshots.
pub mod Domain
pub mod Repositories
pub mod PlayerComponent
