-- ===== src/Routes/Grant.antt =====
-- What every successful sign-in ends with, and the mails on login activity
-- (api/src/routes/session.ts, api/src/auth/cookies.ts, api/src/lib/loginNotification.ts).
use intern_logenhelfer_de.Base.{
  ℕ, ◌*◌, ◌==◌, nat_eq, any, String, Bool, Option, none, [], ◌∷◌, ◌++◌, if◌then◌else◌,
}
use intern_logenhelfer_de.External.{External}
use intern_logenhelfer_de.Http.{
  error_reply, SessionUser, Body, session, Cookie, set_cookie, clear_cookie, Reply,
}
use intern_logenhelfer_de.Store.{Store, User, login_success, login_lockout}
use intern_logenhelfer_de.Auth.DeviceTrust.{record_successful_sign_in}
use intern_logenhelfer_de.Auth.Jwt.{issue_access_token}
use intern_logenhelfer_de.Auth.RefreshToken.{issue_refresh_token}
use intern_logenhelfer_de.Auth.TokenConfig.{TokenConfig}

abbrev pub refresh_token_cookie_name : String
refresh_token_cookie_name = "refresh_token"

abbrev pub set_refresh_token_cookie : TokenConfig → String → Cookie
set_refresh_token_cookie ttl raw_token =
    set_cookie refresh_token_cookie_name raw_token (ttl.jwt_refresh_ttl_seconds * 1000)

abbrev pub clear_refresh_token_cookie : Cookie
clear_refresh_token_cookie = clear_cookie refresh_token_cookie_name

-- The recipient and the method of a mail; its wording is not modelled.
unfoldable pub send_login_success_email : User → String → Store → Store
send_login_success_email user method s =
    if s.config.notify_user_on_login_activity
    then record s { mails = s.mails ++ login_success user.email method ∷ [] }
    else s

unfoldable pub send_login_lockout_email : User → String → Store → Store
send_login_lockout_email user method s =
    if s.config.notify_user_on_login_activity
    then record s { mails = s.mails ++ login_lockout user.email method ∷ [] }
    else s

abbrev pub is_subscribed : ℕ → Store → Bool
is_subscribed user_id s = any (λ id. id == user_id) s.announcement_subscriptions

unfoldable pub auth_json_for : User → Store → SessionUser
auth_json_for user s = record {
  id = user.id;
  email = user.email;
  firstname = user.firstname;
  lastname = user.lastname;
  subscribed_to_announcements = is_subscribed user.id s;
  gdpr_accepted = user.accepted_gdpr;
}

-- What the handler draws at random.
pub record Draws : Type 0 where
  pub family_id : String
  pub raw_token : String
  pub device_token : String

abbrev pub plain : ℕ → Body → Reply
plain status body = record { status = status; body = body; cookies = [] }

module _ (x : External) (ttl : TokenConfig) where
  unfoldable pub session_payload_for : User → Option Bool → ℕ → Store → Body
  unfolding issue_access_token auth_json_for
  session_payload_for user setup_required now s =
      session (issue_access_token x ttl.jwt_access_ttl_seconds user.id none now)
        (auth_json_for user s) setup_required

  -- Tracking, a new refresh token in its cookie, the mail, and the payload.
  unfoldable pub grant_session :
      User → Option String → String → Option Bool → Draws → ℕ → Store → Reply × Store
  unfolding record_successful_sign_in issue_refresh_token send_login_success_email
      session_payload_for
  grant_session user ip method setup_required draws now s =
      let s1 = record_successful_sign_in user ip now s in
      let s2 =
        issue_refresh_token x ttl.jwt_refresh_ttl_seconds user.id draws.family_id draws.raw_token
          now s1 in
      let s3 = send_login_success_email user method s2 in
      (
        record {
          status = 200;
          body = session_payload_for user setup_required now s3;
          cookies = set_refresh_token_cookie ttl draws.raw_token ∷ [];
        },
        s3,
      )

abbrev pub unauthorized : Reply
unauthorized = error_reply 401 "unauthorized" none
