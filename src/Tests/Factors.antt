-- ===== src/Tests/Factors.antt =====
-- Second factors on the small database.
use intern_logenhelfer_de.Base.{
  inl, ◌+◌, ◌≡◌, refl, arith, String, true, false, not, ◌&&◌, none, some, List, [], ◌∷◌, any, map,
  count_where, if◌then◌else◌, ltb,
}
use intern_logenhelfer_de.Http.{backup_codes, empty}
use intern_logenhelfer_de.Store.{setup}
use intern_logenhelfer_de.Auth.Jwt.{now_seconds, issue_access_token, issue_mfa_pending_token}
use intern_logenhelfer_de.Auth.Lockout.{is_mfa_locked_out}
use intern_logenhelfer_de.Auth.Middleware.{Request, Guarded, authenticate_api_user}
use intern_logenhelfer_de.Auth.Middleware.Scopes.{header_of}
use intern_logenhelfer_de.Auth.RefreshToken.{find_user}
use intern_logenhelfer_de.Mfa.BackupCodes.{consume_backup_code, generate_backup_codes, is_open}
use intern_logenhelfer_de.Mfa.BackupCodes.SingleUse.{accepts, consume_backup_code_lem}
use intern_logenhelfer_de.Mfa.EmailOtp.{verify_email_otp}
use intern_logenhelfer_de.Mfa.Status.{is_mfa_setup_required_for}
use intern_logenhelfer_de.Routes.Grant.{plain, unauthorized}
use intern_logenhelfer_de.Routes.Mfa.{delete_totp, delete_method, verify_existing_mfa_proof}
use intern_logenhelfer_de.Routes.Mfa.Removal.{delete_method_lem, without_factor}
use intern_logenhelfer_de.Routes.Mfa.{Proof, verify_existing_mfa_proof}
use intern_logenhelfer_de.Routes.Mfa.Setup.Regenerate.{
  regenerate_backup_codes, by_email, regenerate_backup_codes-by_email,
}
use intern_logenhelfer_de.Routes.Mfa.Setup.{
  invalid_code, SetupDraws, setup_start, begin_setup, is_gated,
}
use intern_logenhelfer_de.Routes.Mfa.Setup.Gate.{is_proven, setup_start_lem}
use intern_logenhelfer_de.Routes.MfaChallenge.{
  verify_encrypted_totp_code, VerifyRequest, PasskeyVerifyRequest, verify, passkey_verify,
  check_factor, login_key, require_mfa_pending_token,
}
use intern_logenhelfer_de.Routes.MfaChallenge.Ceremony.{passkey_verify-once}
use intern_logenhelfer_de.Routes.MfaChallenge.Laws.{token_scopes, verify_lem}
use intern_logenhelfer_de.Routes.Session.Login.{is_session}
use intern_logenhelfer_de.Tests.Data.{packages, ttl, draws, member, store}

consume_backup_code_lem_example :
    let (accepted, s') = consume_backup_code packages 1 "AAAAA-BBBBB" 7 store in
    (accepted ≡ any (accepts packages 1 "AAAAA-BBBBB") store.backup_codes)
    × (accepted ≡ true
        → count_where (is_open 1) s'.backup_codes + 1 ≡ count_where (is_open 1) store.backup_codes)
    × (accepted ≡ false → s' ≡ store)
consume_backup_code_lem_example =
    consume_backup_code_lem packages 1 7 "AAAAA-BBBBB" store ((λ h. omega (arith, h), tt), (tt, tt))

abbrev request : Request
request = record { authorization = none; method = "GET"; original_url = "/api/v1/me" }

token_scopes_example :
    let pending = header_of (issue_mfa_pending_token packages 1 0) in
    let access = header_of (issue_access_token packages 900 1 none 0) in
    (authenticate_api_user packages [] [] (record request { authorization = pending }) 7000 store
      ≡ Guarded.unauthorized)
    × (require_mfa_pending_token packages pending 7000 store
        ≡ (if ltb (now_seconds 7000) (now_seconds 0 + 900) then find_user 1 store else none))
    × (require_mfa_pending_token packages access 7000 store ≡ none)
token_scopes_example = token_scopes packages [] [] request 900 1 0 7000 none store refl refl

abbrev verify_request : VerifyRequest
verify_request = record {
  method = some "totp";
  code = "123456";
  remember_device = true;
  user_agent = none;
  ip = none;
}

verify_lem_example :
    let (reply, s') = verify packages ttl member verify_request draws 7 store in
    let locked = is_mfa_locked_out (login_key member) 7 store in
    let proven =
      (check_factor packages member verify_request.method verify_request.code 7 store).0 in
    (is_session reply ≡ (not locked && proven))
    × (is_session reply ≡ false → reply ≡ unauthorized)
    × (locked ≡ true → s' ≡ store)
verify_lem_example = verify_lem packages ttl member verify_request draws 7 store

abbrev passkey_request : PasskeyVerifyRequest
passkey_request = record {
  response_id = some "key";
  answer = "challenge";
  remember_device = false;
  user_agent = none;
  ip = none;
}

passkey_verify-once_example :
    let s' = (passkey_verify packages ttl member passkey_request draws 7 store).1 in
    (passkey_verify packages ttl member passkey_request draws 9 s').0 ≡ unauthorized
unfolding is_mfa_locked_out
passkey_verify-once_example =
    passkey_verify-once packages ttl member passkey_request passkey_request draws draws 7 9 store
      refl

abbrev totp_proof : Proof
totp_proof = record { method = some "totp"; code = "123456"; response = none }

abbrev proof : Proof
proof = record { method = some "backup_code"; code = "AAAAA-BBBBB"; response = none }

delete_method_lem_example :
    (delete_method packages member "totp" totp_proof 7 store).0 ≡ plain 204 empty
    × (delete_method packages member "totp" totp_proof 7 store).1
      ≡ without_factor 1 "totp" (verify_existing_mfa_proof packages 1 totp_proof 7 store).1
unfolding verify_existing_mfa_proof is_mfa_setup_required_for delete_totp verify_encrypted_totp_code
delete_method_lem_example =
    (delete_method_lem packages member "totp" totp_proof 7 store (inl refl)).0 refl

abbrev setup_draws : SetupDraws
setup_draws = record {
  secret = "secret";
  vector = "vector";
  code = "444444";
  salt = "salz";
  challenge = "challenge";
  codes = [];
}

setup_start_lem_example :
    let (result, s1) = verify_existing_mfa_proof packages 1 proof 7 store in
    let started = setup_start packages member (some "totp") proof setup_draws 7 store in
    let gated = is_gated packages member (some "totp") store in
    (gated ≡ false → started ≡ begin_setup packages member (some "totp") setup_draws 7 store)
    × (gated ≡ true
        → is_proven result ≡ true
        → started ≡ begin_setup packages member (some "totp") setup_draws 7 s1)
    × (gated ≡ true
        → is_proven result ≡ false
        → (started.1.totp_credentials ≡ store.totp_credentials)
          × (started.1.pending_registration_challenges ≡ store.pending_registration_challenges))
setup_start_lem_example = setup_start_lem packages member (some "totp") proof setup_draws 7 store

regenerate_backup_codes-by_email_example :
    let codes : List (String × String) = ("s", "EEEEE-FFFFF") ∷ [] in
    let (accepted, s1) = verify_email_otp packages 1 setup "111111" 7 store in
    let done = regenerate_backup_codes packages member (by_email "111111") codes 7 store in
    (accepted ≡ true
      → (done.0 ≡ plain 200 (backup_codes (map (λ c. c.1) codes)))
        × (done.1 ≡ (generate_backup_codes packages 1 7 codes s1).1))
    × (accepted ≡ false → done ≡ (invalid_code packages, store))
regenerate_backup_codes-by_email_example =
    regenerate_backup_codes-by_email packages member "111111" (("s", "EEEEE-FFFFF") ∷ []) 7 store
