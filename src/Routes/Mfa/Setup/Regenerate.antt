-- ===== src/Routes/Mfa/Setup/Regenerate.antt =====
-- New backup codes (the route /backup-codes/regenerate of api/src/routes/mfa.ts).
use intern_logenhelfer_de.Base.{
  not, ◌&&◌, err, if◌then◌else◌, ℕ, ◌≡◌, refl, ap, ◌∙◌, String, true, false, none, some, List, map,
  ok, Bool-cases, inl, inr,
}
use intern_logenhelfer_de.External.{External}
use intern_logenhelfer_de.Http.{Reply, backup_codes, api_error_handler}
use intern_logenhelfer_de.Store.{Store, User, setup}
use intern_logenhelfer_de.Auth.Lockout.{is_mfa_locked_out}
use intern_logenhelfer_de.Mfa.BackupCodes.{generate_backup_codes}
use intern_logenhelfer_de.Mfa.EmailOtp.{verify_email_otp}
use intern_logenhelfer_de.Mfa.EmailOtp.SingleUse.{verify_email_otp_lem}
use intern_logenhelfer_de.Routes.Grant.{plain}
use intern_logenhelfer_de.Routes.Mfa.{
  Proof, Attempt, attempt_proof, count_proof, verify_existing_mfa_proof, proof_key, is_method,
}
use intern_logenhelfer_de.Routes.Mfa.Setup.{invalid_code}

module _ (x : External) where
  -- A code by email is tried only where the proof has failed.
  unfoldable pub regenerate_proof : User → Proof → ℕ → Store → Attempt
  unfolding verify_existing_mfa_proof verify_email_otp
  regenerate_proof user p now s =
      let (result, s1) = verify_existing_mfa_proof x user.id p now s in
      elim result [
        | err e ↦ (err e, s1)
        | ok proven ↦
            if not proven && is_method p.method "email"
            then (let (accepted, s2) = verify_email_otp x user.id setup p.code now s1 in
                (ok accepted, s2))
            else (ok proven, s1)
      ]

  abbrev pub regenerated : ℕ → List (String × String) → ℕ → Attempt → Reply × Store
  regenerated user_id codes now (err e, s1) = (api_error_handler e, s1)
  regenerated user_id codes now (ok false, s1) = (invalid_code x, s1)
  regenerated user_id codes now (ok true, s1) =
      let (fresh, s2) = generate_backup_codes x user_id now codes s1 in
      (plain 200 (backup_codes fresh), s2)

  unfoldable pub regenerate_backup_codes :
      User → Proof → List (String × String) → ℕ → Store → Reply × Store
  unfolding regenerate_proof generate_backup_codes api_error_handler
  regenerate_backup_codes user p codes now s =
      regenerated user.id codes now (regenerate_proof user p now s)

-- The proof that comes by email.
abbrev pub by_email : String → Proof
by_email code = record { method = some "email"; code = code; response = none }

-- For the email nothing is attempted, and so nothing is counted.
verify_existing_mfa_proof-by_email :
    (x : External) (user_id now : ℕ) (code : String) (s : Store)
    → verify_existing_mfa_proof x user_id (by_email code) now s ≡ (ok false, s)
unfolding verify_existing_mfa_proof attempt_proof count_proof
verify_existing_mfa_proof-by_email x user_id now code s =
    elim (Bool-cases (is_mfa_locked_out (proof_key user_id) now s)) [
      | inl locked ↦ rw locked refl
      | inr free ↦ rw free refl
    ]

-- Behind a lockout or not, the code by email is what decides.
regenerate_proof-by_email :
    (x : External) (user : User) (now : ℕ) (code : String) (s : Store)
    → let (accepted, s1) = verify_email_otp x user.id setup code now s in
      regenerate_proof x user (by_email code) now s ≡ (ok accepted, s1)
unfolding regenerate_proof
regenerate_proof-by_email x user now code s =
    let untried = verify_existing_mfa_proof-by_email x user.id now code s in
    rw (untried, regenerate_proof)
      (ap
        (λ s1. (
          ok (verify_email_otp x user.id setup code now s1).0,
          (verify_email_otp x user.id setup code now s1).1,
        ))
        (ap (λ a. a.1) untried))

-- Backup codes are drawn anew against a code by email exactly when the code is accepted, whatever
-- lockouts there are. A wrong code leaves the whole store as it was, so that no number of wrong
-- codes keeps the next one from being judged.
pub regenerate_backup_codes-by_email :
    (x : External) (user : User) (code : String) (codes : List (String × String)) (now : ℕ)
    (s : Store)
    → let (accepted, s1) = verify_email_otp x user.id setup code now s in
      let done = regenerate_backup_codes x user (by_email code) codes now s in
      (accepted ≡ true
        → (done.0 ≡ plain 200 (backup_codes (map (λ c. c.1) codes)))
          × (done.1 ≡ (generate_backup_codes x user.id now codes s1).1))
      × (accepted ≡ false → done ≡ (invalid_code x, s))
unfolding regenerate_backup_codes generate_backup_codes
regenerate_backup_codes-by_email x user code codes now s =
    let (accepted, s1) = verify_email_otp x user.id setup code now s in
    let reply_to : Attempt → Reply × Store = regenerated x user.id codes now in
    let done = ap reply_to (regenerate_proof-by_email x user now code s) in
    (
      (λ right.
          let granted = done ∙ ap (λ b. reply_to (ok b, s1)) right in
          (ap (λ t. t.0) granted, ap (λ t. t.1) granted)),
      (λ wrong.
          done
          ∙ ap (λ b. reply_to (ok b, s1)) wrong
          ∙ ap (λ t. (invalid_code x, t))
              ((verify_email_otp_lem x user.id now setup code s).1 wrong)),
    )
