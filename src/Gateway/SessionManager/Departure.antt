-- ===== src/Gateway/SessionManager/Departure.antt =====
-- services/gateway/session/session.go: `disconnect` and the timer of `scheduleExpiry`, each with its steps.
use game01_server.Prelude.{
  ℕ, ◌+◌, Bool, not, ◌&&◌, ◌||◌, Option, none, some, List, [], ◌∷◌, ◌++◌, String,
}
use game01_server.Prelude.Tests.{ltb, ◌==◌, if◌then◌else◌}
use game01_server.Prelude.Eq.{string_eq, str_eq}
use game01_server.Prelude.Maps.{Map, get, del}
use game01_server.Gateway.Session.{
  Error, not_found, reconnecting, expired, Record, state_number, release_account, compare_and_swap,
}
use game01_server.Gateway.SessionManager.{
  disconnected, session_expired, Notice, schedule_expiry, Manager, emit_lifecycle, or_empty,
}

-- The loop over `m.connections` in `disconnect`.
unfoldable pub drop_connections : Map String String → String → Map String String
drop_connections [] session_id = []
drop_connections ((conn, sid) ∷ rest) session_id =
    if str_eq sid session_id
    then drop_connections rest session_id
    else (conn, sid) ∷ drop_connections rest session_id

unfoldable pub drop_owner :
    Map String String → Map String String → String → String → Map String String
drop_owner owners [] session_id account_id = owners
drop_owner owners ((conn, sid) ∷ rest) session_id account_id =
    drop_owner
      (if str_eq sid session_id && str_eq (or_empty (get owners account_id)) conn
        then del owners account_id
        else owners)
      rest session_id account_id

-- The steps of `disconnect` from the write on, `r` being the record that was read: the compare-and-swap, whose verdict
-- is not looked at; `ReleaseAccount`; the loop under the lock.
unfoldable pub disconnect_swap : Manager → Record → ℕ → Manager × Option Bool
disconnect_swap m r now =
    let r' = record r {
      state = reconnecting;
      connection_id = "";
      expire_at = now + m.reconnect_grace;
    } in
    let (s, swapped) = compare_and_swap m.store r r' in (record m { store = s }, swapped)

unfoldable pub disconnect_release : Manager → Record → Manager
disconnect_release m r = record m { store = release_account m.store r.account_id r.connection_id }

unfoldable pub disconnect_forget : Manager → String → String → Manager
unfolding drop_connections drop_owner
disconnect_forget m session_id account_id = record m {
  connections = drop_connections m.connections session_id;
  account_connections = drop_owner m.account_connections m.connections session_id account_id;
}

-- `disconnect` from the write on, where nothing comes between its steps.
unfoldable pub disconnect_write :
    Manager → Record → String → ℕ → Manager × Option Error × List Notice
unfolding emit_lifecycle disconnect_swap disconnect_release disconnect_forget
disconnect_write m r session_id now =
    let (m₁, swapped) = disconnect_swap m r now in
    let m₂ = disconnect_forget (disconnect_release m₁ r) session_id r.account_id in
    elim swapped [
      | none ↦ (m₁, some not_found, [])
      | some ok ↦ (
        m₂,
        none,
        emit_lifecycle m₂ disconnected r now ++ schedule_expiry r (now + m.reconnect_grace) ∷ [],
      )
    ]

-- `disconnect` once it has read the record `r`; an epoch of 0 stands also for none given.
unfoldable pub disconnect_read :
    Manager → Record → String → String → ℕ → ℕ → Manager × Option Error × List Notice
unfolding disconnect_write
disconnect_read m r session_id connection_id now epoch =
    if not (str_eq connection_id "") && not (str_eq r.connection_id connection_id)
    then (m, none, [])
    else (if not (epoch == 0) && not (r.connection_epoch == epoch)
        then (m, none, [])
        else disconnect_write m r session_id now)

-- `DisconnectConnection`
unfoldable pub disconnect : Manager → String → String → ℕ → ℕ → Manager × Option Error × List Notice
unfolding disconnect_read
disconnect m session_id connection_id now epoch = elim (get m.store session_id) [
  | none ↦ (m, some not_found, [])
  | some r ↦ disconnect_read m r session_id connection_id now epoch
]

-- The timer of `scheduleExpiry` for `gone` has read the record `r`: whether it leaves it.
unfoldable pub is_kept : Record → Record → ℕ → Bool
is_kept gone r now =
    not (state_number r.state == state_number reconnecting)
    || (not (r.connection_epoch == gone.connection_epoch) || ltb now r.expire_at)

-- Its steps after that: `Delete`, which compares nothing, and `ReleaseAccount`.
unfoldable pub expire_delete : Manager → Record → Manager
expire_delete m gone = record m { store = del m.store gone.session_id }

unfoldable pub expire_release : Manager → Record → Manager
expire_release m r = record m { store = release_account m.store r.account_id "" }

-- The timer once it has read `r`, where nothing comes between its steps.
unfoldable pub expire_read : Manager → Record → Record → ℕ → Manager × List Notice
unfolding emit_lifecycle is_kept expire_delete expire_release
expire_read m gone r now =
    let m' = expire_release (expire_delete m gone) r in
    if is_kept gone r now
    then (m, [])
    else (m', emit_lifecycle m' session_expired (record r { state = expired }) now)

-- The timer of `scheduleExpiry` fires.
unfoldable pub expire : Manager → Record → ℕ → Manager × List Notice
unfolding emit_lifecycle expire_read
expire m gone now = elim (get m.store gone.session_id) [
  | none ↦ (m, emit_lifecycle m session_expired (record gone { state = expired }) now)
  | some r ↦ expire_read m gone r now
]
