-- ===== src/Gateway/Session/Laws.antt =====
-- What the operations of the store in memory (services/gateway/session/session.go) do to one session.
use game01_server.Prelude.{◌≡◌, refl, true, Option, none, some, [], ◌∷◌, String, arith}
use game01_server.Prelude.Eq.{string_eq, eq_iff}
use game01_server.Prelude.Maps.{get}
use game01_server.Gateway.Session.{Record, Store, record_eq, released, release_account}

pub record_eq_refl : (r : Record) → record_eq r r ≡ true
unfolding record_eq
record_eq_refl r = ground (
  arith,
  eq_iff r.session_id r.session_id,
  eq_iff r.account_id r.account_id,
  eq_iff r.player_id r.player_id,
  eq_iff r.gateway_instance_id r.gateway_instance_id,
  eq_iff r.connection_id r.connection_id,
  eq_iff r.resume_token_hash r.resume_token_hash,
)

pub record_eq_epoch :
    (a b : Record) → record_eq a b ≡ true → a.connection_epoch ≡ b.connection_epoch
unfolding record_eq
record_eq_epoch a b h = ground arith

pub record_eq_facts :
    (a b : Record)
    → record_eq a b ≡ true
    → (a.session_id ≡ b.session_id)
      × (a.account_id ≡ b.account_id)
      × (a.connection_epoch ≡ b.connection_epoch)
      × (a.resume_token_hash ≡ b.resume_token_hash)
unfolding record_eq
record_eq_facts a b h = ground (
  arith,
  eq_iff a.session_id b.session_id,
  eq_iff a.account_id b.account_id,
  eq_iff a.resume_token_hash b.resume_token_hash,
)

unfoldable pub map_option {ℓ κ} : {A : Type ℓ} {B : Type κ} → (A → B) → Option A → Option B
map_option f none = none
map_option f (some a) = some (f a)

pub get-release_account :
    (s : Store) (account_id connection_id k : String)
    → get (release_account s account_id connection_id) k
      ≡ map_option (released account_id connection_id) (get s k)
unfolding get release_account map_option
get-release_account [] account_id connection_id k = refl
get-release_account ((id, r) ∷ s) account_id connection_id k =
    ground (arith, get-release_account s account_id connection_id k)
