-- ===== src/Tests/Data.antt =====
-- An instance of the packages and a small database.
use intern_logenhelfer_de.Base.{
  ℕ, ◌+◌, ◌≡◌, refl, String, Bool, true, false, not, Option, none, some, List, [], ◌∷◌, ◌++◌, ◌==◌,
  string_eq, eq_refl, ltb, if◌then◌else◌,
}
use intern_logenhelfer_de.External.{
  registered, registration_refused, External, AccessTokenPayload, refused, verified,
}
use intern_logenhelfer_de.Store.{Store, User, RefreshToken, login, Config}
use intern_logenhelfer_de.Auth.Jwt.{pending_payload, access_payload}
use intern_logenhelfer_de.Auth.TokenConfig.{TokenConfig}
use intern_logenhelfer_de.Authz.Rules.{Casl, Rule, Action, Target, fits}
use intern_logenhelfer_de.Routes.Grant.{Draws}

abbrev verify_token : ℕ → String → Option AccessTokenPayload
verify_token now token =
    if token == "pending"
    then if ltb now 900 then some (pending_payload 1 0) else none
    else if token == "access"
    then if ltb now 900 then some (access_payload 900 1 none 0) else none
    else none

abbrev pub packages : External
packages = record {
  digest = λ raw. raw;
  compare = λ password hash. password == hash;
  hash = λ salt password. password;
  compare-hash = λ salt password. eq_refl password;
  sign = λ p. if p.mfa_pending then "pending" else "access";
  verify = verify_token;
  encrypt = λ vector secret. secret;
  decrypt = λ encrypted. some encrypted;
  totp = λ now secret code. some (secret == code);
  otpauth_uri = λ secret email. secret;
  verify_registration = λ answer challenge.
      if answer == challenge then registered "new" "public" 0 else registration_refused;
  verify_authentication = λ answer challenge id key counter.
      if answer == challenge then verified (counter + 1) else refused;
  challenge_of = λ client_data. some (some client_data);
  lower = λ t. t;
  trim = λ t. t;
  nfkd = λ t. t;
}

abbrev pub ttl : TokenConfig
ttl = record {
  jwt_access_ttl_seconds = 900;
  jwt_refresh_ttl_seconds = 604_800;
  reset_password_token_ttl_seconds = 3600;
}

abbrev pub draws : Draws
draws = record { family_id = "f2"; raw_token = "t2"; device_token = "d2" }

abbrev pub member : User
member = record {
  id = 1;
  uuid = some "u1";
  email = "a@b.de";
  mobile = none;
  encrypted_password = "geheim12";
  reset_password_token = some "reset";
  reset_password_sent_at = some 0;
  sign_in_count = none;
  current_sign_in_at = none;
  last_sign_in_at = none;
  current_sign_in_ip = none;
  last_sign_in_ip = none;
  firstname = none;
  lastname = none;
  deleted = some false;
  accepted_gdpr = none;
  birthday_calendar_consent = false;
  created_at = 0;
  updated_at = 0;
}

abbrev pub other_member : User
other_member = record member {
  id = 2;
  uuid = some "u2";
  email = "c@d.de";
  reset_password_token = none;
}

abbrev pub token_row : RefreshToken
token_row = record {
  id = 0;
  user_id = 1;
  token_digest = "t0";
  family_id = "f";
  expires_at = 1_000_000;
  consumed_at = none;
  revoked_at = none;
  created_at = 0;
  updated_at = 0;
}

abbrev pub config : Config
config = record {
  mfa_mode = some "mandatory";
  mfa_enforce_for_officers = none;
  mfa_grace_period_days = none;
  mfa_trusted_device_days = some 200;
  mfa_grace_period_started_at = none;
  notify_user_on_login_activity = true;
  notify_technical_contact_on_unknown_password_reset = true;
  technical_contact_email = none;
  domain = none;
  demo_mode = false;
}

-- Both members have a confirmed app; the first a code by email, a passkey and two backup codes too.
abbrev pub store : Store
store = record {
  users = member ∷ other_member ∷ [];
  login_lockouts = [];
  mfa_lockouts = [];
  refresh_tokens = token_row ∷ [];
  next_id = 10;
  totp_credentials =
      (record { user_id = 1; encrypted_secret = "123456"; verified_at = some 0 })
      ∷ (record { user_id = 2; encrypted_secret = "654321"; verified_at = some 0 })
      ∷ [];
  email_credentials = (record { user_id = 1; verified_at = some 0 }) ∷ [];
  passkey_credentials =
      (record {
        id = 3;
        user_id = 1;
        credential_id = "key";
        public_key = "public";
        sign_count = 4;
        last_used_at = none;
      })
      ∷ [];
  email_otp_codes =
      (record {
        id = 5;
        user_id = 1;
        purpose = login;
        code_hash = "111111";
        expires_at = 600_000;
        consumed_at = none;
        created_at = 0;
      })
      ∷ [];
  backup_codes =
      (record { id = 6; user_id = 1; code_hash = "AAAAA-BBBBB"; used_at = none; created_at = 0 })
      ∷ (record { id = 7; user_id = 1; code_hash = "CCCCC-DDDDD"; used_at = none; created_at = 0 })
      ∷ [];
  trusted_devices = [];
  announcement_subscriptions = 1 ∷ [];
  mfa_reset_events = [];
  impersonation_events = [];
  passkey_login_challenges = [];
  pending_login_passkey_challenges = (1, "challenge") ∷ [];
  pending_registration_challenges = [];
  pending_proof_challenges = [];
  config = config;
  mails = [];
}

-- Rules are scanned from the first; each that fits replaces the decision of those before.
abbrev scan : Bool → List Rule → Action → Target → Bool
scan decided [] a t = decided
scan decided (r ∷ rs) a t = scan (if fits a t r then not r.inverted else decided) rs a t

pub scan-append :
    (decided : Bool) (rules : List Rule) (r : Rule) (a : Action) (t : Target)
    → scan decided (rules ++ r ∷ []) a t
      ≡ (if fits a t r then not r.inverted else scan decided rules a t)
scan-append decided [] r a t = refl
scan-append decided (q ∷ rules) r a t =
    scan-append (if fits a t q then not q.inverted else decided) rules r a t

abbrev pub casl : Casl
casl = record { can = scan false; can-nil = λ a t. refl; can-append = scan-append false }
