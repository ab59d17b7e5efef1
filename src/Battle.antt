-- ===== src/Battle.antt =====
-- services/battle: the room of a battle, and the manager that keeps the rooms and restores players.
pub mod Room
pub mod Delta
pub mod RoomManager
