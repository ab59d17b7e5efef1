-- ===== src/Usercenter/Authentication.antt =====
-- The tokens of services/usercenter/components/domain_auth_component.go: how a refresh token is made, replaced and revoked. A
-- request has been parsed; a clock reading, an identity of `idgen.NewUUID` and the text of the random bytes are arguments,
-- `none` where their source fails. The hash of a token is a parameter, and the message ids of the answers are left out.
pub mod Refresh
mod Examples
use game01_server.Prelude.{ℕ, ◌+◌, Bool, not, ◌||◌, Option, none, some, String}
use game01_server.Prelude.Tests.{◌==◌, if◌then◌else◌}
use game01_server.Prelude.Eq.{str_eq}
use game01_server.Prelude.Text.{trim_space}
use game01_server.Storage.{Collection}
use game01_server.Storage.UnitOfWork.{SessionFactory}
use game01_server.Usercenter.Domain.{Error, invalid_token, RefreshToken, is_usable}
use game01_server.Usercenter.TokenRepository.{
  TokenError, rejected, FoundToken, token_found, token_error, create_token, find_valid,
  revoke_token, rotate,
}

-- `incomplete` is a request that lacks a field, `no_randomness` a failure of the generators.
pub data AuthError : Type 0 where
  incomplete no_randomness : AuthError
  of_token : TokenError → AuthError

pub data Answer (A : Type 0) : Type 0 where
  answered : A → Answer A
  refused : AuthError → Answer A

pub record RefreshRequest : Type 0 where
  pub refresh_token : String
  pub install_id : String

pub record RevokeRequest : Type 0 where
  pub account_id : String
  pub refresh_token : String

pub record TokenGrant : Type 0 where
  pub account_id : String
  pub refresh_token : String
  pub expires_at : ℕ

-- What the generators give for a new token: its identity, the text of the random bytes, and the time.
pub record Draw : Type 0 where
  pub id : Option String
  pub random : Option String
  pub at : ℕ

module _ (hash_token : String → String) (token_ttl : ℕ) where
  abbrev pub drawn :
      String → String → ℕ → Option String → Option String → Answer (RefreshToken × String)
  drawn account_id install_id now none random = refused no_randomness
  drawn account_id install_id now (some id) none = refused no_randomness
  drawn account_id install_id now (some id) (some raw) = answered (
    record {
      id = id;
      account_id = account_id;
      token_hash = hash_token raw;
      install_id = trim_space install_id;
      created_at = now;
      expires_at = now + token_ttl;
      revoked_at = none;
    },
    raw,
  )

  -- `newToken`, where a lifetime that is not positive is 0.
  unfoldable pub new_token : String → String → Draw → Answer (RefreshToken × String)
  new_token account_id install_id draw =
      if str_eq account_id "" || (str_eq install_id "" || token_ttl == 0)
      then refused (of_token (rejected invalid_token))
      else drawn account_id install_id draw.at draw.id draw.random

  module _ (c : Collection RefreshToken) where
    abbrev pub stored :
        c.Store
        → RefreshToken × String
        → Option TokenError
        → c.Store × Answer (RefreshToken × String)
    stored s t none = (s, answered t)
    stored s t (some e) = (s, refused (of_token e))

    -- `issueToken`.
    unfoldable pub issue_token :
        c.Store → String → String → Draw → ℕ → c.Store × Answer (RefreshToken × String)
    unfolding new_token
    issue_token s account_id install_id draw clock = elim (new_token account_id install_id draw) [
      | refused e ↦ (s, refused e)
      | answered t ↦ let (s', failure) = create_token c s t.0 clock in stored s' t failure
    ]

    abbrev pub granted :
        RefreshToken → RefreshToken × String → Option TokenError → Answer TokenGrant
    granted old t none =
        answered
          (record { account_id = old.account_id; refresh_token = t.1; expires_at = t.0.expires_at })
    granted old t (some e) = refused (of_token e)

    unfoldable pub replace_token :
        Option (SessionFactory c.Store TokenError)
        → c.Store
        → ℕ
        → ℕ
        → RefreshToken
        → Answer (RefreshToken × String)
        → c.Store × Answer TokenGrant
    replace_token unit s now clock old (refused e) = (s, refused e)
    replace_token unit s now clock old (answered t) =
        let (s', failure) = rotate c unit s old.id now t.0 clock in (s', granted old t failure)

    unfoldable pub refresh_found :
        Option (SessionFactory c.Store TokenError)
        → c.Store
        → RefreshRequest
        → ℕ
        → Draw
        → ℕ
        → FoundToken
        → c.Store × Answer TokenGrant
    unfolding replace_token new_token
    refresh_found unit s r now draw clock (token_error e) = (s, refused (of_token e))
    refresh_found unit s r now draw clock (token_found old) =
        let replaced =
          replace_token unit s now clock old (new_token old.account_id r.install_id draw) in
        if is_usable old now (trim_space r.install_id)
        then replaced
        else (s, refused (of_token (rejected invalid_token)))

    -- `refreshAuthenticateCore`.
    unfoldable pub refresh_authenticate_core :
        Option (SessionFactory c.Store TokenError)
        → c.Store
        → RefreshRequest
        → ℕ
        → Draw
        → ℕ
        → c.Store × Answer TokenGrant
    unfolding refresh_found
    refresh_authenticate_core unit s r now draw clock =
        refresh_found unit s r now draw clock (find_valid c s (hash_token r.refresh_token) now)

    abbrev pub revocation : Option TokenError → Answer Unit
    revocation none = answered tt
    revocation (some e) = refused (of_token e)

    unfoldable pub revoke_found : c.Store → RevokeRequest → ℕ → FoundToken → c.Store × Answer Unit
    revoke_found s r now (token_error e) = (s, refused (of_token (rejected invalid_token)))
    revoke_found s r now (token_found t) =
        let (s', failure) = revoke_token c s t.id now in
        if str_eq t.account_id (trim_space r.account_id)
        then (s', revocation failure)
        else (s, refused (of_token (rejected invalid_token)))

    -- `revokeRefreshTokenCore`, with its two clock readings.
    unfoldable pub revoke_refresh_token_core :
        c.Store → RevokeRequest → ℕ → ℕ → c.Store × Answer Unit
    unfolding revoke_found
    revoke_refresh_token_core s r now later =
        revoke_found s r later (find_valid c s (hash_token r.refresh_token) now)
