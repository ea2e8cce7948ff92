-- ===== src/Routes/Mfa/Setup.antt =====
-- Setting up second factors (api/src/routes/mfa.ts).
pub mod Gate
pub mod Regenerate
use Prim.Native.String
use intern_logenhelfer_de.Base.{
  ℕ, suc, String, Bool, true, false, not, ◌&&◌, ◌||◌, Option, none, some, List, [], ◌∷◌, ◌++◌, ◌==◌,
  string_eq, nat_eq, if◌then◌else◌, find, any, get, set, delete, is_some, ok, err, select,
  update_where,
}
use intern_logenhelfer_de.External.{
  External, Registration, registration_thrown, registration_refused, registered,
}
use intern_logenhelfer_de.Http.{
  Reply, empty, options, otpauth, backup_codes, other, api_error, not_found, bad_request,
  api_error_handler, error_reply,
}
use intern_logenhelfer_de.Store.{
  Store, User, TotpCredential, EmailCredential, PasskeyCredential, setup,
}
use intern_logenhelfer_de.Auth.Lockout.{
  is_mfa_locked_out, record_failed_mfa_attempt, reset_mfa_lockout,
}
use intern_logenhelfer_de.Mfa.BackupCodes.{generate_backup_codes}
use intern_logenhelfer_de.Mfa.EmailOtp.{send_email_otp, verify_email_otp}
use intern_logenhelfer_de.Mfa.Status.{get_user_mfa_methods, non_empty}
use intern_logenhelfer_de.Routes.Grant.{plain}
use intern_logenhelfer_de.Routes.Params.{decimal}
use intern_logenhelfer_de.Routes.Mfa.{Proof, Attempt, verify_existing_mfa_proof, with_proof}
use intern_logenhelfer_de.Routes.MfaChallenge.{is_method, find_totp, verify_totp_code}

-- What the set-up routes draw: a TOTP secret and its vector, a code and its salt, a challenge, and
-- backup codes with their salts.
pub record SetupDraws : Type 0 where
  pub secret : String
  pub vector : String
  pub code : String
  pub salt : String
  pub challenge : String
  pub codes : List (String × String)

-- The `upsert` on the user id: a secret that is not confirmed yet.
unfoldable pub upsert_totp : ℕ → String → Store → Store
upsert_totp user_id encrypted s =
    let row : TotpCredential = record {
      user_id = user_id;
      encrypted_secret = encrypted;
      verified_at = none;
    } in
    record s {
      totp_credentials =
          if any (λ c. c.user_id == user_id) s.totp_credentials
          then update_where (λ c. c.user_id == user_id)
              (λ c. record c { encrypted_secret = encrypted; verified_at = none })
              s.totp_credentials
          else s.totp_credentials ++ row ∷ [];
    }

unfoldable pub upsert_email : ℕ → ℕ → Store → Store
upsert_email user_id now s =
    let row : EmailCredential = record { user_id = user_id; verified_at = some now } in
    record s {
      email_credentials =
          if any (λ c. c.user_id == user_id) s.email_credentials
          then update_where (λ c. c.user_id == user_id) (λ c. record c { verified_at = some now })
              s.email_credentials
          else s.email_credentials ++ row ∷ [];
    }

abbrev pub unknown_method : Option String → Reply
unknown_method none = error_reply 400 "bad_request" (some "unknown method: undefined")
unknown_method (some m) = error_reply 400 "bad_request" (some (String.◌++◌ "unknown method: " m))

module _ (x : External) where
  -- The set-up itself, behind the gate. The QR code of a URI is not modelled.
  unfoldable pub begin_setup : User → Option String → SetupDraws → ℕ → Store → Reply × Store
  unfolding upsert_totp send_email_otp
  begin_setup user method draws now s =
      if is_method method "totp"
      then (
        plain 200 (otpauth (x.otpauth_uri draws.secret user.email)),
        upsert_totp user.id (x.encrypt draws.vector draws.secret) s,
      )
      else if is_method method "email"
      then (plain 200 empty, send_email_otp x user.id user.email setup draws.code draws.salt now s)
      else if is_method method "passkey"
      then (
        plain 200 (options draws.challenge),
        record s {
          pending_registration_challenges =
              set user.id draws.challenge s.pending_registration_challenges;
        },
      )
      else (unknown_method method, s)

  -- The app and the passkey ask for a proof once any factor is enrolled; the email does not.
  abbrev pub is_gated : User → Option String → Store → Bool
  is_gated user method s =
      (is_method method "totp" || is_method method "passkey")
      && non_empty (get_user_mfa_methods user.id s)

  unfoldable pub setup_start : User → Option String → Proof → SetupDraws → ℕ → Store → Reply × Store
  unfolding begin_setup verify_existing_mfa_proof
  setup_start user method p draws now s =
      if is_gated user method s
      then with_proof (verify_existing_mfa_proof x user.id p now s)
          (begin_setup user method draws now)
      else begin_setup user method draws now s

  -- `ensureBackupCodesExist`, with the codes of the reply.
  unfoldable pub ensure_backup_codes_exist :
      ℕ → List (String × String) → ℕ → Store → List String × Store
  unfolding generate_backup_codes
  ensure_backup_codes_exist user_id codes now s =
      if any (λ c. c.user_id == user_id) s.backup_codes
      then ([], s)
      else generate_backup_codes x user_id now codes s

  abbrev pub confirmed : ℕ → List (String × String) → ℕ → Store → Reply × Store
  confirmed user_id codes now s =
      let (fresh, s1) = ensure_backup_codes_exist user_id codes now s in
      (plain 200 (backup_codes fresh), s1)

  abbrev pub invalid_code : Reply
  invalid_code = error_reply 422 "unprocessable" (some "Code ist ungültig")

  unfoldable pub confirm_totp : ℕ → ℕ → Store → Store
  confirm_totp user_id now s = record s {
    totp_credentials =
        update_where (λ c. c.user_id == user_id) (λ c. record c { verified_at = some now })
          s.totp_credentials;
  }

  -- A secret that cannot be decrypted throws here.
  unfoldable pub setup_totp_verify :
      User → String → List (String × String) → ℕ → Store → Reply × Store
  unfolding confirm_totp ensure_backup_codes_exist verify_totp_code api_error_handler
  setup_totp_verify user code codes now s = elim (find_totp x user.id s) [
    | none ↦ (api_error_handler (api_error not_found (some "no pending TOTP setup")), s)
    | some credential ↦ elim (x.decrypt credential.encrypted_secret) [
      | none ↦ (api_error_handler other, s)
      | some secret ↦
          if verify_totp_code x secret code now
          then confirmed user.id codes now (confirm_totp user.id now s)
          else (invalid_code, s)
    ]
  ]

  -- `mfa-setup-email:${user.id}`
  abbrev pub setup_email_key : ℕ → String
  setup_email_key user_id = String.◌++◌ "mfa-setup-email:" (decimal user_id)

  unfoldable pub setup_email_verify :
      User → String → List (String × String) → ℕ → Store → Reply × Store
  unfolding is_mfa_locked_out verify_email_otp record_failed_mfa_attempt reset_mfa_lockout
      upsert_email ensure_backup_codes_exist
  setup_email_verify user code codes now s =
      if is_mfa_locked_out (setup_email_key user.id) now s
      then (invalid_code, s)
      else let (accepted, s1) = verify_email_otp x user.id setup code now s in
        if accepted
        then confirmed user.id codes now
            (upsert_email user.id now (reset_mfa_lockout (setup_email_key user.id) now s1))
        else (invalid_code, (record_failed_mfa_attempt (setup_email_key user.id) now s1).1)

  -- The challenge is used up when the registration is accepted. The name of a passkey is not
  -- modelled.
  unfoldable pub register_passkey : ℕ → String → String → ℕ → Store → Store
  register_passkey user_id id key counter s =
      let row : PasskeyCredential = record {
        id = s.next_id;
        user_id = user_id;
        credential_id = id;
        public_key = key;
        sign_count = counter;
        last_used_at = none;
      } in
      record s {
        pending_registration_challenges = delete user_id s.pending_registration_challenges;
        passkey_credentials = s.passkey_credentials ++ row ∷ [];
        next_id = suc s.next_id;
      }

  abbrev pub registration_failed : Reply
  registration_failed =
      error_reply 422 "unprocessable" (some "Passkey-Registrierung fehlgeschlagen")

  abbrev pub no_registration : Reply
  no_registration = error_reply 400 "bad_request" (some "no pending passkey registration")

  unfoldable pub setup_passkey_verify :
      User → String → List (String × String) → ℕ → Store → Reply × Store
  unfolding register_passkey ensure_backup_codes_exist api_error_handler
  setup_passkey_verify user answer codes now s =
      elim (get user.id s.pending_registration_challenges) [
        | none ↦ (no_registration, s)
        | some challenge ↦
            if challenge == ""
            then (no_registration, s)
            else elim (x.verify_registration answer challenge) [
              | registration_thrown ↦ (api_error_handler other, s)
              | registration_refused ↦ (registration_failed, s)
              | registered id key counter ↦
                  confirmed user.id codes now (register_passkey user.id id key counter s)
            ]
      ]
