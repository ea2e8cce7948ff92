-- ===== src/Routes/MfaChallenge.antt =====
-- The routes of a login's second factor (api/src/routes/mfaChallenge.ts). They take the token of a
-- pending login, which `authenticateApiUser` refuses.
pub mod Laws
pub mod Ceremony
use intern_logenhelfer_de.Base.{
  ℕ, ◌*◌, String, Bool, true, false, not, ◌&&◌, Option, none, some, List, [], ◌∷◌, ◌++◌, ◌==◌,
  string_eq, nat_eq, if◌then◌else◌, find, get, set, delete, is_some, or_else,
}
use Prim.Native.String
use intern_logenhelfer_de.External.{External, Verification, thrown, refused, verified}
use intern_logenhelfer_de.Http.{
  Reply, Body, empty, options, api_error, not_found, Cookie, set_cookie, api_error_handler,
  error_reply,
}
use intern_logenhelfer_de.Store.{Store, User, TotpCredential, login}
use intern_logenhelfer_de.Auth.DeviceTrust.{issue_trusted_device_token}
use intern_logenhelfer_de.Auth.Jwt.{verify_access_token}
use intern_logenhelfer_de.Auth.Lockout.{
  is_mfa_locked_out, record_failed_mfa_attempt, reset_mfa_lockout,
}
use intern_logenhelfer_de.Auth.Middleware.{bearer}
use intern_logenhelfer_de.Auth.RefreshToken.{find_user}
use intern_logenhelfer_de.Auth.TokenConfig.{TokenConfig}
use intern_logenhelfer_de.Mfa.BackupCodes.{consume_backup_code}
use intern_logenhelfer_de.Mfa.EmailOtp.{verify_email_otp, send_email_otp, invalidate_login_codes}
use intern_logenhelfer_de.Mfa.Settings.{get_mfa_settings}
use intern_logenhelfer_de.Mfa.Status.{non_empty}
use intern_logenhelfer_de.Routes.Grant.{
  unauthorized, Draws, plain, grant_session, send_login_lockout_email,
}
use intern_logenhelfer_de.Routes.Session.Passkey.{find_credential, touch_passkey}
use intern_logenhelfer_de.Base.{select, length}

module _ (x : External) where
  -- `none` is the reply 401; the user is what the guard hands to the handler.
  unfoldable pub require_mfa_pending_token : Option String → ℕ → Store → Option User
  require_mfa_pending_token authorization now s = elim (bearer authorization) [
    | none ↦ none
    | some token ↦ elim (verify_access_token x token now) [
      | none ↦ none
      | some payload ↦ if payload.mfa_pending then find_user payload.sub s else none
    ]
  ]

-- The body of `POST /verify`, its code as `String(body.code ?? '')`.
pub record VerifyRequest : Type 0 where
  pub method : Option String
  pub code : String
  pub remember_device : Bool
  pub user_agent : Option String
  pub ip : Option String

abbrev pub login_key : User → String
login_key user = String.◌++◌ "mfa:" user.email

abbrev pub is_method : Option String → String → Bool
is_method none name = false
is_method (some m) name = m == name

unfoldable pub to_login_method : Option String → String
to_login_method none = "mfa_unknown"
to_login_method (some m) =
    if m == "totp"
    then m
    else if m == "email"
    then m
    else if m == "backup_code"
    then m
    else "mfa_unknown"

-- A throw is a refusal.
abbrev pub accepted_code : Option Bool → Bool
accepted_code none = false
accepted_code (some b) = b

module _ (x : External) where
  unfoldable pub verify_totp_code : String → String → ℕ → Bool
  verify_totp_code secret code now = accepted_code (x.totp now secret code)

  unfoldable pub verify_encrypted_totp_code : String → String → ℕ → Bool
  unfolding verify_totp_code
  verify_encrypted_totp_code encrypted_secret code now = elim (x.decrypt encrypted_secret) [
    | none ↦ false
    | some secret ↦ verify_totp_code secret code now
  ]

  -- A credential that is not confirmed never counts.
  abbrev pub totp_proves : Option TotpCredential → String → ℕ → Bool
  totp_proves none code now = false
  totp_proves (some c) code now =
      is_some c.verified_at && verify_encrypted_totp_code c.encrypted_secret code now

  abbrev pub find_totp : ℕ → Store → Option TotpCredential
  find_totp user_id s = find (λ c. c.user_id == user_id) s.totp_credentials

  -- The three kinds of a code, each with the change that it makes.
  unfoldable pub check_factor : User → Option String → String → ℕ → Store → Bool × Store
  unfolding verify_email_otp consume_backup_code
  check_factor user method code now s =
      if is_method method "totp"
      then (totp_proves (find_totp user.id s) code now, s)
      else if is_method method "email"
      then verify_email_otp x user.id login code now s
      else if is_method method "backup_code"
      then consume_backup_code x user.id code now s
      else (false, s)

unfoldable pub reject_factor : User → String → ℕ → Store → Reply × Store
unfolding record_failed_mfa_attempt send_login_lockout_email
reject_factor user method now s =
    let (locked_out, s1) = record_failed_mfa_attempt (login_key user) now s in
    (unauthorized, if locked_out then send_login_lockout_email user method s1 else s1)

module _ (x : External) (ttl : TokenConfig) where
  abbrev pub device_token_cookie_name : String
  device_token_cookie_name = "mfa_device_token"

  abbrev pub add_cookie : Cookie → Reply → Reply
  add_cookie c r = record r { cookies = r.cookies ++ c ∷ [] }

  -- `if (body.remember_device === true)`: a trusted device and its cookie.
  unfoldable pub remember :
      Bool → User → Option String → Option String → Draws → ℕ → Reply × Store → Reply × Store
  unfolding issue_trusted_device_token get_mfa_settings
  remember false user user_agent ip draws now r = r
  remember true user user_agent ip draws now (r, s) =
      let days = (get_mfa_settings s.config).trusted_device_days in
      (
        add_cookie (set_cookie device_token_cookie_name draws.device_token (days * 86_400_000)) r,
        issue_trusted_device_token x user.id user_agent ip days draws.device_token now s,
      )

  unfoldable pub accept_factor :
      User → String → Bool → Option String → Option String → Draws → ℕ → Store → Reply × Store
  unfolding reset_mfa_lockout grant_session remember
  accept_factor user method remember_device user_agent ip draws now s =
      remember remember_device user user_agent ip draws now (
        grant_session x ttl user ip method none draws now
          (reset_mfa_lockout (login_key user) now s))

  unfoldable pub verify : User → VerifyRequest → Draws → ℕ → Store → Reply × Store
  unfolding is_mfa_locked_out check_factor reject_factor accept_factor to_login_method
  verify user r draws now s =
      if is_mfa_locked_out (login_key user) now s
      then (unauthorized, s)
      else let (proven, s1) = check_factor x user r.method r.code now s in
        if proven
        then accept_factor user (to_login_method r.method) r.remember_device r.user_agent r.ip draws
            now s1
        else reject_factor user (to_login_method r.method) now s1

-- `options.challenge` is what the library drew.
unfoldable pub passkey_options : User → String → Store → Reply × Store
unfolding api_error_handler
passkey_options user challenge s =
    if not (non_empty (select (λ c. c.user_id == user.id) s.passkey_credentials))
    then (api_error_handler (api_error not_found none), s)
    else (
      plain 200 (options challenge),
      record s {
        pending_login_passkey_challenges = set user.id challenge s.pending_login_passkey_challenges;
      },
    )

unfoldable pub burn_challenge : User → Store → Store
burn_challenge user s = record s {
  pending_login_passkey_challenges = delete user.id s.pending_login_passkey_challenges;
}

-- `challenge && typeof response?.id === 'string'`
abbrev pub ceremony : Option String → Option String → Option (String × String)
ceremony none id = none
ceremony (some challenge) none = none
ceremony (some challenge) (some id) = if challenge == "" then none else some (challenge, id)

-- The new counter of an accepted answer; a throw is a refusal.
abbrev pub new_counter : Verification → Option ℕ
new_counter (verified n) = some n
new_counter _ = none

module _ (x : External) where
  -- The credential must be the pending user's own.
  unfoldable pub check_passkey : User → String → String → String → ℕ → Store → Bool × Store
  unfolding touch_passkey
  check_passkey user challenge id answer now s = elim (find_credential id s) [
    | none ↦ (false, s)
    | some stored ↦
        if not (stored.user_id == user.id)
        then (false, s)
        else elim (new_counter (
            x.verify_authentication answer challenge stored.credential_id stored.public_key
              stored.sign_count)) [
                | none ↦ (false, s)
                | some n ↦ (true, touch_passkey stored.id n now s)
              ]
  ]

  abbrev pub try_passkey : User → Option (String × String) → String → ℕ → Store → Bool × Store
  try_passkey user none answer now s = (false, s)
  try_passkey user (some (challenge, id)) answer now s =
      check_passkey user challenge id answer now s

pub record PasskeyVerifyRequest : Type 0 where
  pub response_id : Option String
  pub answer : String
  pub remember_device : Bool
  pub user_agent : Option String
  pub ip : Option String

module _ (x : External) (ttl : TokenConfig) where
  unfoldable pub passkey_verify : User → PasskeyVerifyRequest → Draws → ℕ → Store → Reply × Store
  unfolding is_mfa_locked_out burn_challenge check_passkey reject_factor accept_factor
  passkey_verify user r draws now s =
      if is_mfa_locked_out (login_key user) now s
      then (unauthorized, s)
      else let challenge = get user.id s.pending_login_passkey_challenges in
        let (proven, s1) =
          try_passkey x user (ceremony challenge r.response_id) r.answer now
            (burn_challenge user s) in
        if proven
        then accept_factor x ttl user "passkey" r.remember_device r.user_agent r.ip draws now s1
        else reject_factor user "passkey" now s1

-- `!credential || credential.verified_at === null`
abbrev pub has_email_factor : ℕ → Store → Bool
has_email_factor user_id s = elim (find (λ c. c.user_id == user_id) s.email_credentials) [
  | none ↦ false
  | some c ↦ is_some c.verified_at
]

module _ (x : External) where
  -- The code and the salt of its hash are drawn.
  unfoldable pub email_send : User → String → String → ℕ → Store → Reply × Store
  unfolding is_mfa_locked_out invalidate_login_codes send_email_otp api_error_handler
  email_send user code salt now s =
      if not (has_email_factor user.id s)
      then (api_error_handler (api_error not_found none), s)
      else if is_mfa_locked_out (login_key user) now s
      then (plain 204 empty, s)
      else (
        plain 204 empty,
        send_email_otp x user.id user.email login code salt now
            (invalidate_login_codes user.id now s),
      )
