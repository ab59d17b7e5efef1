-- ===== src/Usercenter/Domain/Laws.antt =====
-- When a refresh token is usable and what a validated command record is (services/usercenter/domain).
use game01_server.Prelude.{ℕ, ◌≤◌, ◌<◌, ◌≡◌, ◌⊎◌, inl, inr, true, false, none, String, arith}
use game01_server.Prelude.Tests.{Bool-cases, Option-cases}
use game01_server.Prelude.Eq.{str_eq, eq_iff}
use game01_server.Usercenter.Domain.{
  RefreshToken, validate_token, is_usable, revoke, IdempotencyRecord, pending, completed,
  validate_record, is_completed, is_expired,
}

-- A token that was revoked is usable never again, at no time and by no installation; and a second revocation changes
-- nothing, so that the time of the first one stays.
pub revoke_lem :
    (t : RefreshToken) (now later : ℕ) (install_id : String)
    → (is_usable (revoke t now).0 later install_id ≡ false)
      × (revoke (revoke t now).0 later ≡ revoke t now)
unfolding is_usable validate_token revoke
revoke_lem t now later install_id = elim (Bool-cases (str_eq t.token_hash "")) [
  | inl empty ↦ (ground (arith, empty), ground (arith, empty))
  | inr named ↦ elim (Option-cases t.revoked_at) [
    | inl live ↦ (ground (arith, named, live), ground (arith, named, live))
    | inr (at, done) ↦ (ground (arith, named, done), ground (arith, named, done))
  ]
]

-- A token that is usable belongs to the installation and expires later; it was usable at every time before, by the same
-- installation, and is usable at no time from its expiry on.
pub usable_until :
    (t : RefreshToken) (now earlier late : ℕ) (install_id : String)
    → is_usable t now install_id ≡ true
    → earlier ≤ now
    → t.expires_at ≤ late
    → (t.install_id ≡ install_id)
      × (now < t.expires_at)
      × (is_usable t earlier install_id ≡ true)
      × (is_usable t late install_id ≡ false)
unfolding is_usable validate_token
usable_until t now earlier late install_id h le l = ground (arith, eq_iff t.install_id install_id)

-- A command record that `Validate` accepts is, after the call, either pending or completed (which is what an empty
-- state becomes), `IsCompleted` tells the two apart, it is not expired, and `Validate` accepts it again and leaves it as
-- it is.
pub validate_record_lem :
    (r : IdempotencyRecord) (now : ℕ)
    → (validate_record r now).1 ≡ none
    → let r' = (validate_record r now).0 in
      (((r'.state ≡ pending) × (is_completed r' ≡ false))
        ⊎ ((r'.state ≡ completed) × (is_completed r' ≡ true)))
      × (is_completed r' ≡ is_completed r)
      × (is_expired r' now ≡ false)
      × (validate_record r' now ≡ (r', none))
unfolding validate_record is_completed is_expired
validate_record_lem r now h = ground arith
