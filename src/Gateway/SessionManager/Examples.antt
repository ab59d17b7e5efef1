-- ===== src/Gateway/SessionManager/Examples.antt =====
-- Runs of the session manager of services/gateway/session/session.go.
use game01_server.Prelude.{◌≡◌, ◌≢◌, refl, true, none, some, [], ◌∷◌, String, arith}
use game01_server.Prelude.Eq.{string_eq, eq_iff}
use game01_server.Prelude.Maps.{get, put, Distinct}
use game01_server.Gateway.Session.{Record, authenticated, reconnecting, record_eq, compare_and_swap}
use game01_server.Gateway.SessionManager.{
  Manager, created, resume, resume_read, resume_write, resume_swap, resume_own,
}
use game01_server.Gateway.SessionManager.Departure.{
  disconnect, disconnect_read, disconnect_swap, disconnect_release, disconnect_forget, expire,
}
use game01_server.Gateway.SessionManager.Epochs.{Evolves}
use game01_server.Gateway.SessionManager.Tokens.{
  here, next, resume_swaps, disconnect_swaps, disconnect_releases, disconnect_forgets,
  Calls-Evolves, resume_wins_once,
}
use game01_server.Gateway.SessionManager.Races.{
  resumed_is_kept, resume_after_disconnect, disconnect_overtaken,
}

-- A hash for the tokens of these runs.
abbrev plain : String → String
plain token = token

abbrev home : Record
home = record {
  session_id = "s";
  account_id = "ann";
  player_id = "p";
  gateway_instance_id = "g";
  connection_id = "c1";
  connection_epoch = 1;
  state = authenticated;
  resume_token_hash = "t1";
  expire_at = 100;
}

abbrev online : Manager
online = record {
  store = ("s", home) ∷ [];
  gateway_id = "g";
  session_ttl = 90;
  reconnect_grace = 30;
  connections = ("c1", "s") ∷ [];
  account_connections = ("ann", "c1") ∷ [];
  preempt = true;
  lifecycle = true;
}

there : get online.store "s" ≡ some home
unfolding get
there = refl

abbrev moved : Record
moved = record home {
  connection_id = "c2";
  connection_epoch = 2;
  resume_token_hash = "t2";
  expire_at = 110;
}

moves : (resume_read plain online home (some "t2") "t1" "c2" 20).1 ≡ created moved "t2"
unfolding resume_read resume_write resume_swap resume_own compare_and_swap record_eq get
moves = refl

-- A disconnect, with a resume on another connection between its first step and the rest.
abbrev swapped : Manager
swapped = (disconnect_swap online home 10).0

abbrev offline : Record
offline = record home { state = reconnecting; connection_id = ""; expire_at = 40 }

abbrev between : Manager
between = (resume_swap plain swapped offline "t2" "c2" 11).0

Calls-Evolves_example :
    Evolves
      (some home)
      (get (disconnect_forget (disconnect_release between home) "s" "ann").store "s")
unfolding get
Calls-Evolves_example = Calls-Evolves plain "s" {m = online} (
    next
      (next
        (next (next here (disconnect_swaps online home 10))
          (resume_swaps swapped offline "t2" "c2" 11))
        (disconnect_releases between home))
      (disconnect_forgets (disconnect_release between home) "s" "ann"))

resume_wins_once_example :
    (resume_read plain
      (resume_read plain online home (some "t2") "t1" "c2" 20).0
      home
      (some "t3")
      "t1"
      "c3"
      21).1
    ≢ created moved "t3"
resume_wins_once_example =
    resume_wins_once plain online home (some "t2") "t1" "c2" 20 moved "t2"
      (resume_read plain online home (some "t2") "t1" "c2" 20).0 (some "t3") "t1" "c3" 21 moved "t3"
      moves here

resumed_is_kept_example :
    let n = (resume_read plain online home (some "t2") "t1" "c2" 20).0 in
    ((disconnect n "s" "c1" 40 1).0 ≡ n)
    × ((disconnect n "s" "c1" 40 1).2 ≡ [])
    × ((expire n home 40).0 ≡ n)
resumed_is_kept_example =
    resumed_is_kept plain online home (some "t2") "t1" "c2" 20 moved "t2"
      (resume_read plain online home (some "t2") "t1" "c2" 20).0 "c1" 40 (λ e. cc) moves here

resume_after_disconnect_example :
    let m₁ = (disconnect online "s" "c1" 10 1).0 in
    let m₂ = (resume plain m₁ (some "t2") "s" "t1" "c2" 20).0 in
    (r' : Record) × ((resume plain m₁ (some "t2") "s" "t1" "c2" 20).1 ≡ created r' "t2")
    × (r'.connection_epoch ≡ 2)
    × (r'.resume_token_hash ≡ "t2")
    × (r'.connection_id ≡ "c2")
    × (get m₂.store "s" ≡ some r')
    × (get m₂.connections "c2" ≡ some "s")
    × (get m₂.account_connections "ann" ≡ some "c2")
resume_after_disconnect_example =
    resume_after_disconnect plain online home "t2" "t1" "c2" 10 20 there refl (omega arith)

online-Distinct : Distinct online.connections
unfolding put get
online-Distinct = ground arith

another : moved.connection_id ≢ home.connection_id
another e = ground (arith, eq_iff "c2" "c1", e)

disconnect_overtaken_example :
    let m₁ = (resume_read plain online home (some "t2") "t1" "c2" 20).0 in
    let d = disconnect_read m₁ home "s" "c1" 25 1 in
    (d.1 ≡ none)
    × (get d.0.store "s" ≡ some moved)
    × (moved.connection_id ≡ "c2")
    × (get m₁.connections "c2" ≡ some "s")
    × (get d.0.connections "c2" ≡ none)
disconnect_overtaken_example =
    disconnect_overtaken plain online home (some "t2") "t1" "c2" 20 25 moved "t2" another
      online-Distinct moves
