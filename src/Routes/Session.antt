-- ===== src/Routes/Session.antt =====
-- The routes of a session (api/src/routes/session.ts): login by password, refresh, logout, and
-- login by passkey.
pub mod Login
pub mod Guessing
pub mod Passkey
pub mod Renewal
use intern_logenhelfer_de.Base.{
  ℕ, ◌+◌, ◌*◌, String, Bool, true, false, not, ◌&&◌, Option, none, some, List, [], ◌∷◌, ◌==◌,
  string_eq, nat_eq, if◌then◌else◌, find, select, update_where, leb, is_some, ok, err, get, set,
  delete,
}
use intern_logenhelfer_de.External.{External, Verification, thrown, refused, verified}
use intern_logenhelfer_de.Http.{
  Reply, Body, error, empty, mfa_pending, options, Thrown, api_error_handler, refresh_token_invalid,
  refresh_token_reuse, other, error_reply,
}
use intern_logenhelfer_de.Store.{Store, User, PasskeyCredential}
use intern_logenhelfer_de.Auth.DeviceTrust.{is_device_trusted}
use intern_logenhelfer_de.Auth.Jwt.{issue_mfa_pending_token}
use intern_logenhelfer_de.Auth.Lockout.{
  is_locked_out, record_failed_login, reset_login_lockout, is_mfa_locked_out,
  record_failed_mfa_attempt, reset_mfa_lockout,
}
use intern_logenhelfer_de.Auth.RefreshToken.{
  find_token, find_user, revoke_family, rotate_refresh_token,
}
use intern_logenhelfer_de.Auth.TokenConfig.{TokenConfig}
use intern_logenhelfer_de.Mfa.Status.{get_user_mfa_methods, is_mfa_setup_required_for, non_empty}
use intern_logenhelfer_de.Authz.Ability.{is_true}
use intern_logenhelfer_de.Routes.Grant.{
  unauthorized, Draws, plain, grant_session, session_payload_for, send_login_lockout_email,
  set_refresh_token_cookie, clear_refresh_token_cookie,
}
use intern_logenhelfer_de.Routes.Params.{require_param}

pub record LoginRequest : Type 0 where
  pub email : Option String
  pub password : Option String
  pub device_token : Option String
  pub ip : Option String

abbrev pub invalid_credentials : Reply
invalid_credentials = error_reply 401 "invalid_credentials" none

abbrev pub find_email : String → Store → Option User
find_email email s = find (λ u. u.email == email) s.users

module _ (x : External) where
  -- The comparison with the dummy hash, whose result is not used, is left out.
  abbrev pub password_valid : Option User → String → Bool
  password_valid none password = false
  password_valid (some u) password =
      not (u.encrypted_password == "") && x.compare password u.encrypted_password

-- `if (lockedOut && user)` of the login
unfoldable pub notify_lockout : Bool → Option User → String → Store → Store
unfolding send_login_lockout_email
notify_lockout locked_out none method s = s
notify_lockout locked_out (some u) method s =
    if locked_out then send_login_lockout_email u method s else s

unfoldable pub reject_password : String → Option User → ℕ → Store → Reply × Store
unfolding record_failed_login notify_lockout
reject_password email user now s =
    let (locked_out, s1) = record_failed_login email now s in
    (invalid_credentials, notify_lockout locked_out user "password" s1)

module _ (x : External) (ttl : TokenConfig) where
  -- The right password: a session, unless a second factor is enrolled and the device not trusted.
  unfoldable pub after_password : LoginRequest → User → Draws → ℕ → Store → Reply × Store
  unfolding grant_session is_device_trusted issue_mfa_pending_token get_user_mfa_methods
      is_mfa_setup_required_for
  after_password r user draws now s =
      if not (non_empty (get_user_mfa_methods user.id s))
      then grant_session x ttl user r.ip "password" (some (is_mfa_setup_required_for user.id now s))
          draws now s
      else if is_device_trusted x user.id r.device_token now s
      then grant_session x ttl user r.ip "password" none draws now s
      else (plain 200 (mfa_pending (issue_mfa_pending_token x user.id now)), s)

  -- `!user || !passwordValid`
  unfoldable pub check_password :
      LoginRequest → String → String → Option User → Draws → ℕ → Store → Reply × Store
  unfolding after_password reject_password reset_login_lockout
  check_password r email password none draws now s = reject_password email none now s
  check_password r email password (some user) draws now s =
      if password_valid x (some user) password
      then after_password r user draws now (reset_login_lockout email now s)
      else reject_password email (some user) now s

  -- The handler from the lockout on, with the email in lower case and trimmed.
  unfoldable pub login_as : LoginRequest → String → String → Draws → ℕ → Store → Reply × Store
  unfolding is_locked_out check_password
  login_as r email password draws now s =
      if is_locked_out email now s
      then (invalid_credentials, s)
      else check_password r email password (find_email email s) draws now s

  unfoldable pub login : LoginRequest → Draws → ℕ → Store → Reply × Store
  unfolding require_param login_as api_error_handler
  login r draws now s = elim (require_param x r.email "email") [
    | err e ↦ (api_error_handler e, s)
    | ok email ↦ elim (require_param x r.password "password") [
      | err e ↦ (api_error_handler e, s)
      | ok password ↦ login_as r (x.trim (x.lower email)) password draws now s
    ]
  ]

  abbrev pub refresh_failed : Reply
  refresh_failed = record {
    status = 401;
    body = error "unauthorized" none;
    cookies = clear_refresh_token_cookie ∷ [];
  }

  -- Both errors of a rotation are caught; it throws no other.
  abbrev pub refresh_error : Thrown → Reply
  refresh_error refresh_token_invalid = refresh_failed
  refresh_error refresh_token_reuse = refresh_failed
  refresh_error e = api_error_handler e

  unfoldable pub refresh : Option String → String → ℕ → Store → Reply × Store
  unfolding rotate_refresh_token session_payload_for api_error_handler
  refresh none next_raw now s = (unauthorized, s)
  refresh (some raw) next_raw now s =
      if raw == ""
      then (unauthorized, s)
      else let (result, s1) =
          rotate_refresh_token x ttl.jwt_refresh_ttl_seconds raw next_raw now s in
        elim result [
          | err e ↦ (refresh_error e, s1)
          | ok (new_raw, user) ↦ (
            record {
              status = 200;
              body = session_payload_for x ttl user none now s1;
              cookies = set_refresh_token_cookie ttl new_raw ∷ [];
            },
            s1,
          )
        ]

module _ (x : External) where
  unfoldable pub revoke_family_for_raw_token : String → ℕ → Store → Store
  unfolding revoke_family
  revoke_family_for_raw_token raw now s = elim (find_token x raw s) [
    | none ↦ s
    | some r ↦ revoke_family r.family_id now s
  ]

  unfoldable pub logout : Option String → ℕ → Store → Reply × Store
  unfolding revoke_family_for_raw_token
  logout none now s =
      (record { status = 204; body = empty; cookies = clear_refresh_token_cookie ∷ [] }, s)
  logout (some raw) now s = (
    record { status = 204; body = empty; cookies = clear_refresh_token_cookie ∷ [] },
    if raw == "" then s else revoke_family_for_raw_token raw now s,
  )
