-- ===== src/Routes/Mfa.antt =====
-- The routes by which a signed-in user sets up and removes second factors (api/src/routes/mfa.ts).
pub mod Devices
pub mod Removal
pub mod Setup
use intern_logenhelfer_de.Base.{
  ℕ, String, Bool, true, false, not, ◌&&◌, Option, none, some, List, [], ◌∷◌, ◌==◌, string_eq,
  nat_eq, if◌then◌else◌, find, get, set, delete, is_some, Result, ok, err, select, length,
}
use Prim.Native.String
use intern_logenhelfer_de.Routes.Params.{decimal}
use intern_logenhelfer_de.External.{External, Verification, thrown, refused, verified}
use intern_logenhelfer_de.Http.{
  Reply, Thrown, other, empty, api_error, not_found, api_error_handler, error_reply,
}
use intern_logenhelfer_de.Store.{Store, User, EmailCredential, TotpCredential, setup}
use intern_logenhelfer_de.Auth.Lockout.{
  is_mfa_locked_out, record_failed_mfa_attempt, reset_mfa_lockout,
}
use intern_logenhelfer_de.Mfa.BackupCodes.{consume_backup_code, generate_backup_codes}
use intern_logenhelfer_de.Mfa.EmailOtp.{verify_email_otp}
use intern_logenhelfer_de.Mfa.Settings.{get_mfa_settings}
use intern_logenhelfer_de.Mfa.Status.{
  MfaMethod, totp, email, passkey, get_user_mfa_methods, non_empty, mode_mandatory, grace_over,
  compute_grace_period_ends_at,
}
use intern_logenhelfer_de.Routes.Grant.{plain}
use intern_logenhelfer_de.Routes.MfaChallenge.{totp_proves, find_totp, is_method, has_email_factor}
use intern_logenhelfer_de.Routes.Session.Passkey.{find_credential, touch_passkey}

-- The proof of an existing factor in a request's body.
pub record Proof : Type 0 where
  pub method : Option String
  pub code : String
  -- the passkey's answer, if there is one: its `id`, if there is one, and the whole of it
  pub response : Option (Option String × String)

-- `mfa-proof:${userId}`
abbrev pub proof_key : ℕ → String
proof_key user_id = String.◌++◌ "mfa-proof:" (decimal user_id)

unfoldable pub burn_proof_challenge : ℕ → Store → Store
burn_proof_challenge user_id s = record s {
  pending_proof_challenges = delete user_id s.pending_proof_challenges;
}

-- An attempt's outcome: whether it proves control, or that the library has thrown.
abbrev pub Attempt : Type 0
Attempt = Result Thrown Bool × Store

module _ (x : External) where
  unfoldable pub prove_passkey : ℕ → String → String → String → ℕ → Store → Attempt
  unfolding touch_passkey
  prove_passkey user_id challenge id answer now s = elim (find_credential id s) [
    | none ↦ (ok false, s)
    | some stored ↦
        if not (stored.user_id == user_id)
        then (ok false, s)
        else elim (x.verify_authentication answer challenge stored.credential_id stored.public_key
            stored.sign_count) [
              | thrown ↦ (err other, s)
              | refused ↦ (ok false, s)
              | verified n ↦ (ok true, touch_passkey stored.id n now s)
            ]
  ]

  -- `if (challenge && response)`; the lookup of an `id` that is missing throws.
  abbrev pub prove_ceremony :
      ℕ → Option String → Option (Option String × String) → ℕ → Store → Attempt
  prove_ceremony user_id none response now s = (ok false, s)
  prove_ceremony user_id (some challenge) none now s = (ok false, s)
  prove_ceremony user_id (some challenge) (some (none, answer)) now s =
      if challenge == "" then (ok false, s) else (err other, s)
  prove_ceremony user_id (some challenge) (some (some id, answer)) now s =
      if challenge == "" then (ok false, s) else prove_passkey user_id challenge id answer now s

  -- `none` is a method for which nothing is attempted.
  unfoldable pub attempt_proof : ℕ → Proof → ℕ → Store → Option Attempt
  unfolding consume_backup_code burn_proof_challenge prove_passkey
  attempt_proof user_id p now s =
      if is_method p.method "totp"
      then some (ok (totp_proves x (find_totp x user_id s) p.code now), s)
      else if is_method p.method "backup_code"
      then (let (proven, s1) = consume_backup_code x user_id p.code now s in some (ok proven, s1))
      else if is_method p.method "passkey"
      then some (
          prove_ceremony user_id (get user_id s.pending_proof_challenges) p.response now
            (burn_proof_challenge user_id s))
      else none

  -- A proof resets the counter, a failure raises it; a throw leaves the function before that.
  unfoldable pub count_proof : String → ℕ → Option Attempt → Store → Attempt
  unfolding record_failed_mfa_attempt reset_mfa_lockout
  count_proof key now none s = (ok false, s)
  count_proof key now (some (err e, s1)) s = (err e, s1)
  count_proof key now (some (ok true, s1)) s = (ok true, reset_mfa_lockout key now s1)
  count_proof key now (some (ok false, s1)) s = (ok false, (record_failed_mfa_attempt key now s1).1)

  unfoldable pub verify_existing_mfa_proof : ℕ → Proof → ℕ → Store → Attempt
  unfolding is_mfa_locked_out attempt_proof count_proof
  verify_existing_mfa_proof user_id p now s =
      let key = proof_key user_id in
      if is_mfa_locked_out key now s
      then (ok false, s)
      else count_proof key now (attempt_proof user_id p now s) s

abbrev pub method_text : MfaMethod → String
method_text totp = "totp"
method_text email = "email"
method_text passkey = "passkey"

-- The method that is removed is the text that the route has been given.
unfoldable pub would_be_last_method_and_mandatory_past_grace : ℕ → String → Bool → ℕ → Store → Bool
unfolding get_user_mfa_methods get_mfa_settings compute_grace_period_ends_at
would_be_last_method_and_mandatory_past_grace user_id m removing_last_passkey now s =
    let current = get_user_mfa_methods user_id s in
    let remaining =
      if m == "passkey" && not removing_last_passkey
      then current
      else select (λ n. not (method_text n == m)) current in
    if non_empty remaining
    then false
    else let settings = get_mfa_settings s.config in
      if not (mode_mandatory settings.mode)
      then false
      else grace_over (compute_grace_period_ends_at settings) now

abbrev pub proof_refused : Reply
proof_refused =
    error_reply 422 "unprocessable"
      (some "Bestehende MFA-Methode muss zur Bestätigung erneut verifiziert werden")

abbrev pub last_method : Reply
last_method = error_reply 422 "unprocessable" (some "Letzte MFA-Methode kann nicht entfernt werden")

-- `delete({ where: { user_id } })`
unfoldable pub delete_totp : ℕ → Store → Store
delete_totp user_id s = record s {
  totp_credentials = select (λ c. not (c.user_id == user_id)) s.totp_credentials;
}

unfoldable pub delete_email : ℕ → Store → Store
delete_email user_id s = record s {
  email_credentials = select (λ c. not (c.user_id == user_id)) s.email_credentials;
}

unfoldable pub delete_passkey : String → Store → Store
delete_passkey credential_id s = record s {
  passkey_credentials = select (λ c. not (c.credential_id == credential_id)) s.passkey_credentials;
}

-- The type of `DELETE /methods/:type`: `totp`, and anything else is the email. The contract of the API
-- (openapi.yaml), which a library checks before, lets `totp` and `email` through.
abbrev pub removes_totp : String → Bool
removes_totp type = type == "totp"

abbrev pub has_totp_factor : ℕ → Store → Bool
has_totp_factor user_id s = elim (find (λ c. c.user_id == user_id) s.totp_credentials) [
  | none ↦ false
  | some c ↦ is_some c.verified_at
]

unfoldable pub remove_method : ℕ → String → ℕ → Store → Reply × Store
unfolding would_be_last_method_and_mandatory_past_grace delete_totp delete_email
remove_method user_id type now s =
    if would_be_last_method_and_mandatory_past_grace user_id type true now s
    then (last_method, s)
    else (
      plain 204 empty,
      if removes_totp type then delete_totp user_id s else delete_email user_id s,
    )

-- What follows the proof of control.
abbrev pub with_proof : Attempt → (Store → Reply × Store) → Reply × Store
with_proof (err e, s1) next = (api_error_handler e, s1)
with_proof (ok false, s1) next = (proof_refused, s1)
with_proof (ok true, s1) next = next s1

module _ (x : External) where
  unfoldable pub delete_method : User → String → Proof → ℕ → Store → Reply × Store
  unfolding verify_existing_mfa_proof remove_method api_error_handler
  delete_method user type p now s =
      if not (if removes_totp type then has_totp_factor user.id s else has_email_factor user.id s)
      then (api_error_handler (api_error not_found none), s)
      else with_proof (verify_existing_mfa_proof x user.id p now s) (remove_method user.id type now)

  -- The credential is looked up after the proof; another user's is not found.
  unfoldable pub remove_passkey : ℕ → String → ℕ → Store → Reply × Store
  unfolding would_be_last_method_and_mandatory_past_grace delete_passkey api_error_handler
  remove_passkey user_id credential_id now s = elim (find_credential credential_id s) [
    | none ↦ (api_error_handler (api_error not_found none), s)
    | some c ↦
        if not (c.user_id == user_id)
        then (api_error_handler (api_error not_found none), s)
        else let passkey_count =
            length (select (λ d. d.user_id == user_id) s.passkey_credentials) in
          if would_be_last_method_and_mandatory_past_grace user_id "passkey" (passkey_count == 1)
            now s
          then (last_method, s)
          else (plain 204 empty, delete_passkey credential_id s)
  ]

  unfoldable pub delete_passkey_method : User → String → Proof → ℕ → Store → Reply × Store
  unfolding verify_existing_mfa_proof remove_passkey
  delete_passkey_method user credential_id p now s =
      with_proof (verify_existing_mfa_proof x user.id p now s)
        (remove_passkey user.id credential_id now)
