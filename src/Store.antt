-- ===== src/Store.antt =====
-- The database tables that the modelled code reads and writes (api/prisma/schema.prisma), the
-- in-memory challenge maps of the passkey routes, and the outgoing mail. A table is a list of rows
-- with the columns that the code uses; a time is a number of milliseconds since the epoch.
use intern_logenhelfer_de.Base.{ℕ, String, Bool, Option, List}

pub record User : Type 0 where
  pub id : ℕ
  pub uuid : Option String
  pub email : String
  pub mobile : Option String
  pub encrypted_password : String
  pub reset_password_token : Option String
  pub reset_password_sent_at : Option ℕ
  pub sign_in_count : Option ℕ
  pub current_sign_in_at : Option ℕ
  pub last_sign_in_at : Option ℕ
  pub current_sign_in_ip : Option String
  pub last_sign_in_ip : Option String
  pub firstname : Option String
  pub lastname : Option String
  pub deleted : Option Bool
  pub accepted_gdpr : Option Bool
  pub birthday_calendar_consent : Bool
  pub created_at : ℕ
  pub updated_at : ℕ

-- A row of `login_lockouts`, whose key is an email, or of `mfa_lockouts`.
pub record Lockout : Type 0 where
  pub key : String
  pub failed_count : ℕ
  pub locked_until : Option ℕ
  pub created_at : ℕ
  pub updated_at : ℕ

pub record RefreshToken : Type 0 where
  pub id : ℕ
  pub user_id : ℕ
  pub token_digest : String
  pub family_id : String
  pub expires_at : ℕ
  pub consumed_at : Option ℕ
  pub revoked_at : Option ℕ
  pub created_at : ℕ
  pub updated_at : ℕ

pub record TotpCredential : Type 0 where
  pub user_id : ℕ
  pub encrypted_secret : String
  pub verified_at : Option ℕ

pub record EmailCredential : Type 0 where
  pub user_id : ℕ
  pub verified_at : Option ℕ

pub record PasskeyCredential : Type 0 where
  pub id : ℕ
  pub user_id : ℕ
  pub credential_id : String
  pub public_key : String
  pub sign_count : ℕ
  pub last_used_at : Option ℕ

pub data Purpose : Type 0 where
  setup login : Purpose

pub record EmailOtpCode : Type 0 where
  pub id : ℕ
  pub user_id : ℕ
  pub purpose : Purpose
  pub code_hash : String
  pub expires_at : ℕ
  pub consumed_at : Option ℕ
  pub created_at : ℕ

pub record BackupCode : Type 0 where
  pub id : ℕ
  pub user_id : ℕ
  pub code_hash : String
  pub used_at : Option ℕ
  pub created_at : ℕ

pub record TrustedDevice : Type 0 where
  pub id : ℕ
  pub user_id : ℕ
  pub device_token_hash : String
  pub user_agent : Option String
  pub last_ip : Option String
  pub expires_at : ℕ
  pub created_at : ℕ

-- The mails that are sent, by their cause.
pub data Mail : Type 0 where
  login_success login_lockout : String → String → Mail
  otp : String → String → Mail
  password_reset : String → String → Mail
  unknown_password_reset : String → String → Mail

-- `mfa_mode` and its companions, as stored: `none` is a value of another type or a missing row.
pub record Config : Type 0 where
  pub mfa_mode : Option String
  pub mfa_enforce_for_officers : Option Bool
  pub mfa_grace_period_days : Option ℕ
  pub mfa_trusted_device_days : Option ℕ
  pub mfa_grace_period_started_at : Option ℕ
  pub notify_user_on_login_activity : Bool
  pub notify_technical_contact_on_unknown_password_reset : Bool
  pub technical_contact_email : Option String
  pub domain : Option String
  pub demo_mode : Bool

pub record Store : Type 0 where
  pub users : List User
  pub login_lockouts : List Lockout
  pub mfa_lockouts : List Lockout
  pub refresh_tokens : List RefreshToken
  pub next_id : ℕ
  pub totp_credentials : List TotpCredential
  pub email_credentials : List EmailCredential
  pub passkey_credentials : List PasskeyCredential
  pub email_otp_codes : List EmailOtpCode
  pub backup_codes : List BackupCode
  pub trusted_devices : List TrustedDevice
  pub announcement_subscriptions : List ℕ
  -- the administrator's id and the member's
  pub mfa_reset_events : List (ℕ × ℕ)
  pub impersonation_events : List (ℕ × ℕ)
  pub passkey_login_challenges : List (String × ℕ)
  pub pending_login_passkey_challenges : List (ℕ × String)
  pub pending_registration_challenges : List (ℕ × String)
  pub pending_proof_challenges : List (ℕ × String)
  pub config : Config
  pub mails : List Mail
