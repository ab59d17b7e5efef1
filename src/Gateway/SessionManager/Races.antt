-- ===== src/Gateway/SessionManager/Races.antt =====
-- A disconnect, the timer that it starts and a resume of one session (services/gateway/session/session.go), one after the
-- other or overlapping.
use game01_server.Prelude.{
  ℕ, suc, ◌+◌, ◌<◌, ◌≡◌, ◌≢◌, ◌⊎◌, inl, inr, refl, subst, false, Option, none, some, [], ◌∷◌,
  String, arith,
}
use game01_server.Prelude.Tests.{Bool-cases}
use game01_server.Prelude.Eq.{string_eq, eq_iff}
use game01_server.Prelude.Maps.{
  Map, get, put, del, has, get-del, get-put_self, Distinct, put-Distinct,
}
use game01_server.Gateway.Session.{Record, reconnecting, compare_and_swap, record_eq, released}
use game01_server.Gateway.Session.Laws.{
  record_eq_epoch, record_eq_refl, get-release_account, map_option,
}
use game01_server.Gateway.SessionManager.{
  Manager, created, resume, resume_read, resume_write, renewed, resume_swap, resume_own, own,
}
use game01_server.Gateway.SessionManager.Departure.{
  disconnect, disconnect_read, disconnect_write, disconnect_swap, disconnect_release,
  disconnect_forget, expire, expire_read, expire_delete, expire_release, is_kept, drop_connections,
}
use game01_server.Gateway.SessionManager.Tokens.{Calls, later_epoch, resume_read_created}

stale_disconnect :
    (n : Manager) (session_id connection_id : String) (now epoch : ℕ)
    → epoch ≢ 0
    → (get n.store session_id ≡ none)
      ⊎ ((c : Record) × (get n.store session_id ≡ some c) × (epoch < c.connection_epoch))
    → ((disconnect n session_id connection_id now epoch).0 ≡ n)
      × ((disconnect n session_id connection_id now epoch).2 ≡ [])
unfolding disconnect disconnect_read
stale_disconnect n session_id connection_id now epoch set (inl gone) = ground arith
stale_disconnect n session_id connection_id now epoch set (inr (c, there, lt)) = ground arith

stale_expire :
    (n : Manager) (gone : Record) (now : ℕ)
    → (get n.store gone.session_id ≡ none)
      ⊎ ((c : Record) × (get n.store gone.session_id ≡ some c)
          × (gone.connection_epoch < c.connection_epoch))
    → (expire n gone now).0 ≡ n
unfolding expire expire_read is_kept
stale_expire n gone now (inl absent) = ground arith
stale_expire n gone now (inr (c, there, lt)) = ground arith

-- After a successful resume, and any steps of calls after it: a disconnect for the epoch before it (which is not 0) that
-- reads the session only then changes nothing and tells nobody, and a timer for that epoch that reads the session only
-- then changes nothing. (One that has read it before may: `disconnect_overtaken`, `expire_overtaken`.)
pub resumed_is_kept :
    (hash : String → String) (m : Manager) (r : Record) (next_token : Option String)
    (token connection_id : String) (now : ℕ) (r' : Record) (t : String) (n : Manager)
    (old_connection : String) (later : ℕ)
    → r.connection_epoch ≢ 0
    → (resume_read hash m r next_token token connection_id now).1 ≡ created r' t
    → Calls hash r.session_id (resume_read hash m r next_token token connection_id now).0 n
    → ((disconnect n r.session_id old_connection later r.connection_epoch).0 ≡ n)
      × ((disconnect n r.session_id old_connection later r.connection_epoch).2 ≡ [])
      × ((expire n r later).0 ≡ n)
resumed_is_kept hash m r next_token token connection_id now r' t n old_connection later set e
      calls =
    let newer = later_epoch hash m r next_token token connection_id now r' t n e calls in
    let (unchanged, quiet) =
      stale_disconnect n r.session_id old_connection later r.connection_epoch set newer in
    (unchanged, quiet, stale_expire n r later newer)

-- The record that a disconnect stores.
abbrev gone_offline : Manager → Record → ℕ → Record
gone_offline m r now = record r {
  state = reconnecting;
  connection_id = "";
  expire_at = now + m.reconnect_grace;
}

disconnect_stores :
    (m : Manager) (r : Record) (now : ℕ)
    → get m.store r.session_id ≡ some r
    → let m' = (disconnect m r.session_id r.connection_id now r.connection_epoch).0 in
      (get m'.store r.session_id ≡ some (gone_offline m r now)) × (m'.session_ttl ≡ m.session_ttl)
unfolding disconnect disconnect_read disconnect_write disconnect_swap disconnect_release
    disconnect_forget compare_and_swap map_option released
disconnect_stores m r now there = ground (
  arith,
  eq_iff r.connection_id r.connection_id,
  record_eq_refl r,
  get-put_self m.store r.session_id (gone_offline m r now),
  get-release_account (put m.store r.session_id (gone_offline m r now)) r.account_id r.connection_id
      r.session_id,
)

resume_stores :
    (hash : String → String) (m : Manager) (r : Record) (next_token token connection_id : String)
    (now : ℕ)
    → get m.store r.session_id ≡ some r
    → now < r.expire_at
    → hash token ≡ r.resume_token_hash
    → let m' = (resume hash m (some next_token) r.session_id token connection_id now).0 in
      let r' = renewed hash m r next_token connection_id now in
      ((resume hash m (some next_token) r.session_id token connection_id now).1
        ≡ created r' next_token)
      × (get m'.store r.session_id ≡ some r')
      × (get m'.connections connection_id ≡ some r.session_id)
      × (get m'.account_connections r.account_id ≡ some connection_id)
unfolding resume resume_read resume_write resume_swap resume_own compare_and_swap own
resume_stores hash m r next_token token connection_id now there early right = ground (
  arith,
  eq_iff (hash token) r.resume_token_hash,
  record_eq_refl r,
  get-put_self m.store r.session_id (renewed hash m r next_token connection_id now),
  get-put_self m.connections connection_id r.session_id,
  get-put_self m.account_connections r.account_id connection_id,
)

-- A session that is disconnected can be resumed with its token until the grace time is over, on any connection: the
-- resume succeeds, with the next epoch and the hash of the new token, and the store and both maps of the manager then
-- name the new connection.
pub resume_after_disconnect :
    (hash : String → String) (m : Manager) (r : Record) (next_token token connection_id : String)
    (now later : ℕ)
    → get m.store r.session_id ≡ some r
    → hash token ≡ r.resume_token_hash
    → later < now + m.reconnect_grace
    → let m₁ = (disconnect m r.session_id r.connection_id now r.connection_epoch).0 in
      let m₂ = (resume hash m₁ (some next_token) r.session_id token connection_id later).0 in
      (r' : Record) × ((resume hash m₁ (some next_token) r.session_id token connection_id later).1
        ≡ created r' next_token)
      × (r'.connection_epoch ≡ suc r.connection_epoch)
      × (r'.resume_token_hash ≡ hash next_token)
      × (r'.connection_id ≡ connection_id)
      × (get m₂.store r.session_id ≡ some r')
      × (get m₂.connections connection_id ≡ some r.session_id)
      × (get m₂.account_connections r.account_id ≡ some connection_id)
resume_after_disconnect hash m r next_token token connection_id now later there right early =
    let m₁ : Manager = (disconnect m r.session_id r.connection_id now r.connection_epoch).0 in
    let (offline, _) = disconnect_stores m r now there in
    let (answer, stored, listed, owned) =
      resume_stores hash m₁ (gone_offline m r now) next_token token connection_id later offline
        early right in
    (
      renewed hash m₁ (gone_offline m r now) next_token connection_id later,
      answer,
      refl,
      refl,
      refl,
      stored,
      listed,
      owned,
    )

get-drop_connections :
    (cs : Map String String) (session_id k : String)
    → Distinct cs
    → get cs k ≡ some session_id
    → get (drop_connections cs session_id) k ≡ none
unfolding get drop_connections has
get-drop_connections [] session_id k d h = refl
get-drop_connections ((conn, sid) ∷ cs) session_id k d h = ground (
  arith,
  d.0,
  eq_iff conn k,
  eq_iff sid session_id,
  get-drop_connections cs session_id k d.1,
  dropped_absent cs session_id k,
)
  where
    dropped_absent :
        (cs : Map String String) (session_id k : String)
        → get cs k ≡ none
        → get (drop_connections cs session_id) k ≡ none
    dropped_absent [] session_id k h = refl
    dropped_absent ((conn, sid) ∷ cs) session_id k h =
        ground (arith, dropped_absent cs session_id k)

overtaken :
    (m₁ : Manager) (r r' : Record) (later : ℕ)
    → get m₁.store r.session_id ≡ some r'
    → r.connection_epoch < r'.connection_epoch
    → r'.connection_id ≢ r.connection_id
    → let d = disconnect_read m₁ r r.session_id r.connection_id later r.connection_epoch in
      (d.1 ≡ none)
      × (get d.0.store r.session_id ≡ some r')
      × (d.0.connections ≡ drop_connections m₁.connections r.session_id)
unfolding disconnect_read disconnect_write disconnect_swap disconnect_release disconnect_forget
    compare_and_swap map_option released
overtaken m₁ r r' later there lt moved =
    let differs : record_eq r' r ≡ false = elim (Bool-cases (record_eq r' r)) [
      | inl same ↦ absurd (omega (arith, record_eq_epoch r' r same))
      | inr e ↦ e
    ] in
    ground (
      arith,
      eq_iff r.connection_id r.connection_id,
      eq_iff r'.connection_id r.connection_id,
      differs,
      get-release_account m₁.store r.account_id r.connection_id r.session_id,
    )

-- A resume that comes between the read and the write of a disconnect: the write is refused, as the record has changed,
-- but `disconnect` does not ask whether it was. It returns no error, the session stays with its new connection in the
-- store, and the manager's entry for that connection, which the resume has just made, is removed. (For a new connection
-- that is not the old one, and connections that stand once each in the map.)
pub disconnect_overtaken :
    (hash : String → String) (m : Manager) (r : Record) (next_token : Option String)
    (token connection_id : String) (now later : ℕ) (r' : Record) (t : String)
    → connection_id ≢ r.connection_id
    → Distinct m.connections
    → (resume_read hash m r next_token token connection_id now).1 ≡ created r' t
    → let m₁ = (resume_read hash m r next_token token connection_id now).0 in
      let d = disconnect_read m₁ r r.session_id r.connection_id later r.connection_epoch in
      (d.1 ≡ none)
      × (get d.0.store r.session_id ≡ some r')
      × (r'.connection_id ≡ connection_id)
      × (get m₁.connections connection_id ≡ some r.session_id)
      × (get d.0.connections connection_id ≡ none)
unfolding own
disconnect_overtaken hash m r next_token token connection_id now later r' t moved d e =
    let (_, _, new, _, stored) =
      resume_read_created hash m r next_token token connection_id now r' t e in
    let m₁ : Manager = (resume_read hash m r next_token token connection_id now).0 in
    let there : get m₁.store r.session_id ≡ some r' =
      rw stored (get-put_self m.store r.session_id r') in
    let listed : get m₁.connections connection_id ≡ some r.session_id =
      rw stored (get-put_self m.connections connection_id r.session_id) in
    let once : Distinct m₁.connections =
      rw stored (put-Distinct m.connections connection_id r.session_id d) in
    let (fine, kept, dropped) =
      overtaken m₁ r r' later there (ground (arith, new)) (ground (arith, new, moved)) in
    (
      fine,
      kept,
      ground (arith, new),
      listed,
      rw dropped (get-drop_connections m₁.connections r.session_id connection_id once listed),
    )

removed :
    (m₁ : Manager) (gone r : Record) (later : ℕ)
    → is_kept gone r later ≡ false
    → ((expire_read m₁ gone r later).0.connections ≡ m₁.connections)
      × (get (expire_read m₁ gone r later).0.store gone.session_id ≡ none)
unfolding expire_read expire_delete expire_release map_option released
removed m₁ gone r later over =
    rw (expire_read, over)
      (
        refl,
        ground (
          arith,
          get-del m₁.store gone.session_id gone.session_id,
          eq_iff gone.session_id gone.session_id,
          get-release_account (del m₁.store gone.session_id) r.account_id "" gone.session_id,
        ),
      )

-- A resume that comes between the read and the `Delete` of a timer that found the session's time over: `Delete` compares
-- nothing, and removes the session that the resume has just renewed, while the manager's entry for its new connection
-- stays.
pub expire_overtaken :
    (hash : String → String) (m : Manager) (gone r : Record) (next_token : Option String)
    (token connection_id : String) (now later : ℕ) (r' : Record) (t : String)
    → r.session_id ≡ gone.session_id
    → is_kept gone r later ≡ false
    → (resume_read hash m r next_token token connection_id now).1 ≡ created r' t
    → let m₁ = (resume_read hash m r next_token token connection_id now).0 in
      let x = (expire_read m₁ gone r later).0 in
      (get m₁.store gone.session_id ≡ some r')
      × (get x.store gone.session_id ≡ none)
      × (get x.connections connection_id ≡ some gone.session_id)
unfolding own
expire_overtaken hash m gone r next_token token connection_id now later r' t same over e =
    let (_, _, new, _, stored) =
      resume_read_created hash m r next_token token connection_id now r' t e in
    let m₁ : Manager = (resume_read hash m r next_token token connection_id now).0 in
    let there : get m₁.store r.session_id ≡ some r' =
      rw stored (get-put_self m.store r.session_id r') in
    let listed : get m₁.connections connection_id ≡ some r.session_id =
      rw stored (get-put_self m.connections connection_id r.session_id) in
    let (kept, absent) = removed m₁ gone r later over in
    (
      subst (λ i. get m₁.store i ≡ some r') same there,
      absent,
      rw kept (subst (λ i. get m₁.connections connection_id ≡ some i) same listed),
    )
