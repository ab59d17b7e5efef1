-- ===== src/Lib.antt =====
-- The core of the game server: the parts that its services share (common), the sessions of the gateway, the battle service,
-- the players and assets of the lobby, and the idempotent commands of the user centre.
--
-- * Reliability.Breaker models common/reliability/breaker.go and observer.go. `allow`, `complete`, `set_observer`
--   are the methods of those names, `execute_classified` and `execute` (Breaker/Calls) one call under the
--   breaker. A clock reading is an argument, and what the observer is told is returned. Laws and Trip hold the
--   proofs; a step relation lets calls overlap in any way, each between its `allow` and its `complete`.
-- * Reliability.Retry models common/reliability/retry.go: `do_retry` is `RetryPolicy.Do`, with the error of each
--   attempt and of the context in each wait as functions of the attempt's number. The loop needs no fuel, since it
--   counts its rounds; the shift of the delay wraps as an int64.
-- * Reliability.TokenBucket models common/reliability/token_bucket.go over a float64 that is a parameter with the
--   laws of its order and arithmetic. `wait` takes fuel for its rounds: more than the rounds until the context
--   ends is enough.
-- * Idgen.Snowflake models common/idgen/snowflake.go: `next` is `Next`, `parse` is `Parse`. The clock is the
--   sequence of its readings, and the busy wait takes one unit of fuel for each: more than the readings until the
--   clock has passed the millisecond is enough. Shifts wrap at 2 ^ 64.
-- * Battle.Room and Battle.Delta model services/battle/domain (room.go, delta.go). The tick and the state version wrap at
--   2 ^ 64.
-- * Battle.RoomManager models services/battle/components/room_manager.go: `create`, `mutate`, `restore_by_player_id`
--   and `restore_by_player_id_since` are its methods, the first from its two halves, `restore_lookup` under the
--   first lock and `restore_store` under the second, with the manager as it is at each. Its child Deltas holds how a
--   delta is recorded and composed; Diff gives a delta its meaning, by what a client does with it; Compose, History
--   and Restore prove that a composed delta takes the client of any recorded version to the room's present players;
--   Client says so of the answer in every mode; Invariant and Reach hold the invariant of the manager under all its
--   operations; Failure is about the error paths. The repository of snapshots is given by the outcome of its calls.
-- * Gateway.Session and Gateway.SessionManager model services/gateway/session/session.go: the record of a session
--   with the store in memory, and the manager on that store. A call is a row of steps, each one call of the store or
--   one section under the lock: `create_record` and `create_own`, `resume_swap` and `resume_own`, `disconnect_swap`,
--   `disconnect_release` and `disconnect_forget`, `expire_delete` and `expire_release`. `create`, `resume`,
--   `disconnect` and `expire` compose them with nothing in between; `resume_read`, `disconnect_read` and
--   `expire_read` go on from a record that was read before. Departure holds the steps of disconnects and timers.
--   Epochs and Tokens hold the proofs about the epoch and the token of a session under any order of steps, Rows that
--   the calls are such rows, Races those about a disconnect, a timer and a resume. The hash of tokens is a
--   parameter.
-- * SessionLifecycle models services/common/session_lifecycle.go, which receives the events that the manager emits:
--   `accept` is `Accept`, `handle` the message handler's guards. Delivery and Redelivery hold the proofs.
-- * Streaming.Router models common/streaming/router.go: `register`, `handle` and `dispatch` are its methods. A handler is
--   the answer that it gives to an envelope; encoding and sending are parameters.
-- * Usercenter.Domain models services/usercenter/domain/refresh_token.go and idempotency.go.
-- * Discovery.Registry models common/discovery/static/registry.go: `register_item` is `Register`, `close_item` the function
--   that it returns, `discover` is `Discover`; a watch is a channel of 16 events.
-- * Storage is the interface to a MongoDB collection: the calls that the repositories make, and the laws of a lawful
--   collection. Storage.UnitOfWork models `Execute` of common/mongodb/transaction.go on sessions with the laws of a
--   transaction; Storage.Memory shows that the laws can hold.
-- * Usercenter.IdempotencyRepository models services/usercenter/repository/mongo/idempotency_repository.go: `reserve`,
--   `complete`, `release`, `renew` and `recover_expired` are its methods. Protection is about calls that overlap, Reserve
--   about `Reserve` as one step.
-- * Usercenter.TokenRepository models services/usercenter/repository/mongo/refresh_token_repository.go: `rotate` is
--   `Rotate`. Rotation and Once hold the proofs about it. Usercenter.Account models
--   services/usercenter/domain/account.go and identity.go.
-- * Usercenter.Authentication and Usercenter.Commands model services/usercenter/components/domain_auth_component.go: its
--   refresh tokens (`new_token`, `refresh_authenticate_core`, `revoke_refresh_token_core`), and its idempotent commands
--   (`with_idempotency`, `execute_reserved`, `wait_for_idempotency`). A call that waits takes a list of rounds, each with
--   what others do before it; the list is the bound, and a call that has not ended by then is `waiting`. Replay, Record and
--   Once hold the proofs.
-- * Lobby.Domain and Lobby.Repositories model services/lobby/domain and services/lobby/repository/mongo;
--   Lobby.PlayerComponent models services/lobby/components/player_component.go: `settlement`, `ensure_player`
--   (Players) and `restore` (Restore) are its handlers. Execution, Settlements, Repeats and Solvency hold the proofs
--   about settlements, DefaultPlayer about `ensurePlayer`, under the unit of work that services/lobby/module.go
--   gives the component.
-- * Prelude holds what the parts share: Boolean tests, equality, Go maps as association lists, lists over the native
--   numbers, integers, and `strings.TrimSpace` (Text).
--
-- The epoch of a connection and the version of an account's assets are numbers without bound here; in the code they are of 64
-- bits, and rise by one. The Redis store of sessions, the WebSocket layer and the user centre's accounts in the database are not modelled: their core
-- is in scripts, in calls of drivers or in generated messages. A dot in the name of a currency, which names a nested field in
-- MongoDB, is not modelled. A Go map is read in the order of its list. Pointers that
-- the code never passes as nil are not nil here. Durations that observers are told, logging, metrics, protobuf
-- encoding, the network and the databases are not modelled.
pub mod Battle
pub mod Discovery
pub mod Gateway
pub mod Idgen
pub mod Lobby
pub mod Prelude
pub mod Reliability
pub mod SessionLifecycle
pub mod Storage
pub mod Streaming
pub mod Usercenter
