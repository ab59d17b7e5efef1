-- ===== src/Gateway/SessionManager.antt =====
-- services/gateway/session/session.go: the manager of the sessions, on the store in memory. The hash of a token is
-- a parameter; `randomID` is given by its result, `none` for an error; a call takes the time that it is given. The
-- calls of the preempt handler, the lifecycle events and the timers that are started are returned in order.
-- A call is a row of steps, each an atomic call of the store or a section under the lock, and other calls may come between
-- any two. Each step is a function of its own, given the manager as it then is; `disconnect_read`, `resume_read` and
-- `expire_read` go on from a record that was read before, whatever the manager has become since.
pub mod Departure
pub mod Epochs
pub mod Tokens
pub mod Rows
pub mod Races
mod Examples
use game01_server.Prelude.{
  ℕ, suc, ◌+◌, Bool, true, false, not, ◌&&◌, ◌||◌, Option, none, some, List, [], ◌∷◌, ◌++◌, String,
}
use game01_server.Prelude.Tests.{ltb, ◌==◌, if◌then◌else◌}
use game01_server.Prelude.Eq.{string_eq, str_eq}
use game01_server.Prelude.Maps.{Map, get, put, del}
use game01_server.Gateway.Session.{
  Error, not_found, invalid_token, session_expiry, session_conflict, no_random, State, no_state,
  authenticated, reconnecting, expired, Record, Store, state_number, store_create, claim_account,
  release_account, compare_and_swap,
}

pub data LifecycleType : Type 0 where
  connected disconnected resumed session_expired preempted : LifecycleType

-- `event_id` has the three parts that `EventID` prints.
pub record LifecycleEvent : Type 0 where
  pub event_id : String × ℕ × LifecycleType
  pub event_type : LifecycleType
  pub session_id : String
  pub account_id : String
  pub player_id : String
  pub connection_id : String
  pub connection_epoch : ℕ
  pub gateway_instance_id : String
  pub occurred_at : ℕ

pub data Notice : Type 0 where
  preempt : Record → Notice
  lifecycle : LifecycleEvent → Notice
  schedule_expiry : Record → ℕ → Notice

-- `preempt` and `lifecycle` say whether there is a handler.
pub record Manager : Type 0 where
  pub store : Store
  pub gateway_id : String
  pub session_ttl : ℕ
  pub reconnect_grace : ℕ
  pub connections : Map String String
  pub account_connections : Map String String
  pub preempt : Bool
  pub lifecycle : Bool

unfoldable pub new_manager : String → ℕ → ℕ → Manager
new_manager gateway_id session_ttl reconnect_grace = record {
  store = [];
  gateway_id = gateway_id;
  session_ttl = session_ttl;
  reconnect_grace = reconnect_grace;
  connections = [];
  account_connections = [];
  preempt = false;
  lifecycle = false;
}

-- `SetPreemptHandler` and `SetLifecycleHandler`; a nil handler is `false`.
unfoldable pub set_preempt_handler : Manager → Bool → Manager
set_preempt_handler m handler = record m { preempt = handler }

unfoldable pub set_lifecycle_handler : Manager → Bool → Manager
set_lifecycle_handler m handler = record m { lifecycle = handler }

pub data Result : Type 0 where
  created : Record → String → Result
  refused : Error → Result

unfoldable pub emit_lifecycle : Manager → LifecycleType → Record → ℕ → List Notice
emit_lifecycle m event_type r now =
    let event : LifecycleEvent = record {
      event_id = (r.session_id, r.connection_epoch, event_type);
      event_type = event_type;
      session_id = r.session_id;
      account_id = r.account_id;
      player_id = r.player_id;
      connection_id = r.connection_id;
      connection_epoch = r.connection_epoch;
      gateway_instance_id = r.gateway_instance_id;
      occurred_at = now;
    } in
    if m.lifecycle then lifecycle event ∷ [] else []

abbrev pub or_empty : Option String → String
or_empty none = ""
or_empty (some s) = s

-- `Record{AccountID: accountID, ConnectionID: previousID}`
abbrev pub bare : String → String → Record
bare account_id connection_id = record {
  session_id = "";
  account_id = account_id;
  player_id = "";
  gateway_instance_id = "";
  connection_id = connection_id;
  connection_epoch = 0;
  state = no_state;
  resume_token_hash = "";
  expire_at = 0;
}

-- The account's previous connection as `Create` finds it, from the answer of `ClaimAccount`.
unfoldable pub previous_of_create : Manager → Option Record → String → Option Record
previous_of_create m (some r) account_id = some r
previous_of_create m none account_id =
    let previous_id = or_empty (get m.account_connections account_id) in
    if str_eq previous_id "" then none else some (bare account_id previous_id)

-- And as `Resume` finds it.
unfoldable pub previous_of_resume : Manager → Option Record → String → String → Option Record
previous_of_resume m (some r) account_id connection_id = some r
previous_of_resume m none account_id connection_id =
    let previous_id = or_empty (get m.account_connections account_id) in
    if not (str_eq previous_id "") && not (str_eq previous_id connection_id)
    then some (bare account_id previous_id)
    else none

unfoldable pub own : Manager → String → String → String → Manager
own m account_id connection_id session_id = record m {
  account_connections = put m.account_connections account_id connection_id;
  connections = put m.connections connection_id session_id;
}

-- What the previous connection's owner is told, if there is one and it is another.
unfoldable pub preempt_previous : Manager → Option Record → String → ℕ → List Notice
unfolding emit_lifecycle
preempt_previous m none connection_id now = []
preempt_previous m (some r) connection_id now =
    if not (str_eq r.connection_id "") && not (str_eq r.connection_id connection_id)
    then (if m.preempt then preempt r ∷ [] else []) ++ emit_lifecycle m preempted r now
    else []

module _ (hash : String → String) where
  abbrev pub new_record : Manager → String → String → String → String → String → ℕ → Record
  new_record m sid token account_id connection_id player_id now = record {
    session_id = sid;
    account_id = account_id;
    player_id = player_id;
    gateway_instance_id = m.gateway_id;
    connection_id = connection_id;
    connection_epoch = 1;
    state = authenticated;
    resume_token_hash = hash token;
    expire_at = now + m.session_ttl;
  }

  -- The steps of `Create`: the store's `Create`; then, once `ClaimAccount` has answered, the section under the lock, with
  -- the previous connection that it finds.
  unfoldable pub create_record : Manager → Record → Manager × Option Error
  create_record m r = let (s, failed) = store_create m.store r in (record m { store = s }, failed)

  unfoldable pub create_own : Manager → Option Record → Record → Manager × Option Record
  unfolding previous_of_create own
  create_own m claimed r =
      (own m r.account_id r.connection_id r.session_id, previous_of_create m claimed r.account_id)

  -- `Create` with both random ids, where nothing comes between its steps.
  unfoldable pub create_with :
      Manager → String → String → String → String → String → ℕ → Manager × Result × List Notice
  unfolding emit_lifecycle create_record create_own preempt_previous
  create_with m sid token account_id connection_id player_id now =
      let r = new_record m sid token account_id connection_id player_id now in
      let (m', failed) = create_record m r in
      let (m″, previous) = create_own m' (claim_account m'.store account_id r) r in
      elim failed [
        | some e ↦ (m, refused e, [])
        | none ↦ (
          m″,
          created r token,
          preempt_previous m″ previous connection_id now ++ emit_lifecycle m″ connected r now,
        )
      ]

  -- `Create`; `player_id` is the first of the optional ids, or empty.
  unfoldable pub create :
      Manager
      → Option String
      → Option String
      → String
      → String
      → String
      → ℕ
      → Manager × Result × List Notice
  unfolding create_with
  create m none token account_id connection_id player_id now = (m, refused no_random, [])
  create m (some sid) none account_id connection_id player_id now = (m, refused no_random, [])
  create m (some sid) (some token) account_id connection_id player_id now =
      create_with m sid token account_id connection_id player_id now

  -- What a resume writes.
  abbrev pub renewed : Manager → Record → String → String → ℕ → Record
  renewed m r next_token connection_id now = record r {
    state = authenticated;
    connection_id = connection_id;
    gateway_instance_id = m.gateway_id;
    connection_epoch = suc r.connection_epoch;
    resume_token_hash = hash next_token;
    expire_at = now + m.session_ttl;
  }

  -- The steps of `Resume` from the new token on: the compare-and-swap; then, once `ClaimAccount` has answered, the
  -- section under the lock, with the previous connection that it finds.
  unfoldable pub resume_swap : Manager → Record → String → String → ℕ → Manager × Option Bool
  resume_swap m r next_token connection_id now =
      let (s, swapped) = compare_and_swap m.store r (renewed m r next_token connection_id now) in
      (record m { store = s }, swapped)

  unfoldable pub resume_own : Manager → Option Record → Record → Manager × Option Record
  unfolding previous_of_resume own
  resume_own m claimed r = (
    own m r.account_id r.connection_id r.session_id,
    previous_of_resume m claimed r.account_id r.connection_id,
  )

  -- `Resume` from the new token on, where nothing comes between its steps.
  unfoldable pub resume_write :
      Manager → Record → String → String → ℕ → Manager × Result × List Notice
  unfolding emit_lifecycle resume_swap resume_own preempt_previous
  resume_write m r next_token connection_id now =
      let r' = renewed m r next_token connection_id now in
      let (m', swapped) = resume_swap m r next_token connection_id now in
      let (m″, previous) = resume_own m' (claim_account m'.store r.account_id r') r' in
      elim swapped [
        | none ↦ (m', refused not_found, [])
        | some ok ↦
            if ok
            then (
              m″,
              created r' next_token,
              preempt_previous m″ previous connection_id now ++ emit_lifecycle m″ resumed r' now,
            )
            else (m', refused session_conflict, [])
      ]

  -- The write of `Resume` for a session that it finds expired; its verdict is not looked at.
  unfoldable pub resume_expire : Manager → Record → Manager
  resume_expire m r = record m {
    store = (compare_and_swap m.store r (record r { state = expired })).0;
  }

  -- `Resume` once it has read the record `r`.
  unfoldable pub resume_read :
      Manager → Record → Option String → String → String → ℕ → Manager × Result × List Notice
  unfolding resume_write resume_expire
  resume_read m r next_token token connection_id now =
      if not (ltb now r.expire_at)
      then (resume_expire m r, refused session_expiry, [])
      else (if not (str_eq (hash token) r.resume_token_hash)
          then (m, refused invalid_token, [])
          else elim next_token [
            | none ↦ (m, refused no_random, [])
            | some t ↦ resume_write m r t connection_id now
          ])

  -- `Resume`
  unfoldable pub resume :
      Manager → Option String → String → String → String → ℕ → Manager × Result × List Notice
  unfolding resume_read
  resume m next_token session_id token connection_id now = elim (get m.store session_id) [
    | none ↦ (m, refused not_found, [])
    | some r ↦ resume_read m r next_token token connection_id now
  ]
