-- ===== src/Auth/Jwt.antt =====
-- Access tokens and the tokens of a pending second factor (api/src/auth/jwt.ts). The secret and the
-- algorithm are the library's arguments and stand inside `sign` and `verify`.
use intern_logenhelfer_de.Base.{ℕ, ◌+◌, ◌*◌, ◌/◌, String, true, false, Option, none}
use intern_logenhelfer_de.External.{External, AccessTokenPayload}

abbrev pub mfa_pending_ttl_seconds : ℕ
mfa_pending_ttl_seconds = 15 * 60

-- `Math.floor(Date.now() / 1000)`
abbrev pub now_seconds : ℕ → ℕ
now_seconds now = now / 1000

abbrev pub access_payload : ℕ → ℕ → Option ℕ → ℕ → AccessTokenPayload
access_payload ttl_seconds user_id impersonator_id now = record {
  sub = user_id;
  iat = now_seconds now;
  exp = now_seconds now + ttl_seconds;
  act = impersonator_id;
  mfa_pending = false;
}

abbrev pub pending_payload : ℕ → ℕ → AccessTokenPayload
pending_payload user_id now = record {
  sub = user_id;
  iat = now_seconds now;
  exp = now_seconds now + mfa_pending_ttl_seconds;
  act = none;
  mfa_pending = true;
}

module _ (x : External) where
  unfoldable pub issue_access_token : ℕ → ℕ → Option ℕ → ℕ → String
  issue_access_token ttl_seconds user_id impersonator_id now =
      x.sign (access_payload ttl_seconds user_id impersonator_id now)

  unfoldable pub issue_mfa_pending_token : ℕ → ℕ → String
  issue_mfa_pending_token user_id now = x.sign (pending_payload user_id now)

  -- `none` is the throw of `AccessTokenInvalidError`.
  unfoldable pub verify_access_token : String → ℕ → Option AccessTokenPayload
  verify_access_token token now = x.verify (now_seconds now) token
