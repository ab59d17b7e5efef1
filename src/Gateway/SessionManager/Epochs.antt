-- ===== src/Gateway/SessionManager/Epochs.antt =====
-- The epoch and the token of a session (services/gateway/session/session.go), under every interleaving of the calls
-- that share the store.
use game01_server.Prelude.{
  ◌<◌, ◌≡◌, ◌≢◌, ◌⊎◌, inl, inr, refl, true, false, Option, none, some, String, arith,
}
use game01_server.Prelude.Tests.{Bool-cases, Option-cases}
use game01_server.Prelude.Eq.{string_eq, str_eq, eq_iff}
use game01_server.Prelude.Maps.{get, put, del, has, get-put, get-del}
use game01_server.Gateway.Session.{
  Record, Store, released, store_create, release_account, compare_and_swap, record_eq,
}
use game01_server.Gateway.Session.Laws.{record_eq_facts, get-release_account, map_option}

-- What may become of a session: it is removed, or it keeps its account, and either its epoch rises or both its epoch
-- and the hash of its token stay.
abbrev pub Evolves : Option Record → Option Record → Type 0
Evolves none none = Unit
Evolves none (some r') = ⊥
Evolves (some r) none = Unit
Evolves (some r) (some r') =
    (r.account_id ≡ r'.account_id)
    × ((r.connection_epoch < r'.connection_epoch)
        ⊎ ((r.connection_epoch ≡ r'.connection_epoch)
            × (r.resume_token_hash ≡ r'.resume_token_hash)))

pub Evolves-refl : (o : Option Record) → Evolves o o
Evolves-refl none = tt
Evolves-refl (some r) = (refl, inr (refl, refl))

pub Evolves-trans : (a b c : Option Record) → Evolves a b → Evolves b c → Evolves a c
Evolves-trans none none none h k = tt
Evolves-trans none none (some r) h k = k
Evolves-trans none (some r) c h k = absurd h
Evolves-trans (some r) none none h k = tt
Evolves-trans (some r) none (some q) h k = absurd k
Evolves-trans (some r) (some q) none h k = tt
Evolves-trans (some r) (some q) (some t) h k = ground (arith, h, k)

compare_and_swap_cases :
    (s : Store) (e u : Record)
    → ((compare_and_swap s e u).0 ≡ s)
      ⊎ ((c : Record) × (get s e.session_id ≡ some c)
          × (record_eq c e ≡ true)
          × ((compare_and_swap s e u).0 ≡ put s u.session_id u))
unfolding compare_and_swap
compare_and_swap_cases s e u = elim (Option-cases (get s e.session_id)) [
  | inl absent ↦ inl (ground arith)
  | inr (c, there) ↦ elim (Bool-cases (record_eq c e)) [
    | inl same ↦ inr (c, there, same, ground arith)
    | inr differ ↦ inl (ground arith)
  ]
]

pub compare_and_swap-Evolves :
    (s : Store) (e u : Record) (k : String)
    → u.session_id ≡ e.session_id
    → Evolves (some e) (some u)
    → Evolves (get s k) (get (compare_and_swap s e u).0 k)
compare_and_swap-Evolves s e u k own v = elim (compare_and_swap_cases s e u) [
  | inl same ↦ rw same (Evolves-refl (get s k))
  | inr (c, there, eq, stored) ↦
      let (_, account, epoch, token) = record_eq_facts c e eq in
      rw (stored, get-put s u.session_id u k)
        (elim (Bool-cases (str_eq u.session_id k)) [
          | inl here ↦
              let at : get s k ≡ some c = ground (arith, eq_iff u.session_id k, there, own) in
              rw (here, at) (ground (arith, account, epoch, token, v))
          | inr other ↦ rw other (Evolves-refl (get s k))
        ])
]

released-Evolves :
    (account_id connection_id : String) (o : Option Record)
    → Evolves o (map_option (released account_id connection_id) o)
unfolding map_option released
released-Evolves account_id connection_id none = tt
released-Evolves account_id connection_id (some r) = ground arith

pub release_account-Evolves :
    (s : Store) (account_id connection_id k : String)
    → Evolves (get s k) (get (release_account s account_id connection_id) k)
release_account-Evolves s account_id connection_id k =
    rw (get-release_account s account_id connection_id k)
      (released-Evolves account_id connection_id (get s k))

pub del-Evolves : (s : Store) (j k : String) → Evolves (get s k) (get (del s j) k)
del-Evolves s j k = rw (get-del s j k) (elim (Bool-cases (str_eq j k)) [
  | inl here ↦ rw here (gone (get s k))
  | inr other ↦ rw other (Evolves-refl (get s k))
])
  where
    gone : (o : Option Record) → Evolves o none
    gone none = tt
    gone (some r) = tt

pub store_create-Evolves :
    (s : Store) (r : Record) (k : String)
    → r.session_id ≢ k
    → Evolves (get s k) (get (store_create s r).0 k)
unfolding store_create
store_create-Evolves s r k other = elim (Bool-cases (has s r.session_id)) [
  | inl taken ↦ rw (store_create, taken) (Evolves-refl (get s k))
  | inr free ↦
      let apart : str_eq r.session_id k ≡ false = ground (arith, eq_iff r.session_id k, other) in
      rw (store_create, free) (rw (get-put s r.session_id r k, apart) (Evolves-refl (get s k)))
]
