-- ===== src/Routes/Mfa/Setup/Gate.antt =====
-- The gate before the set-up of an authenticator app or a passkey.
use intern_logenhelfer_de.Base.{
  ℕ, ◌≡◌, refl, ap, ◌∙◌, arith, ◌==◌, String, Bool, true, false, Option, none, some, List, Result,
  ok, err, get, Bool-cases, inl, inr, string_eq, nat_eq,
}
use intern_logenhelfer_de.External.{External}
use intern_logenhelfer_de.Http.{Thrown, Reply}
use intern_logenhelfer_de.Store.{Store, User, TotpCredential}
use intern_logenhelfer_de.Auth.Lockout.{
  is_mfa_locked_out, record_failed_mfa_attempt, reset_mfa_lockout,
}
use intern_logenhelfer_de.Mfa.BackupCodes.{consume_backup_code}
use intern_logenhelfer_de.Routes.MfaChallenge.{is_method}
use intern_logenhelfer_de.Routes.Mfa.{
  Proof, Attempt, prove_passkey, prove_ceremony, attempt_proof, count_proof, burn_proof_challenge,
  verify_existing_mfa_proof, proof_key, with_proof,
}
use intern_logenhelfer_de.Routes.Mfa.Setup.{SetupDraws, setup_start, begin_setup, is_gated}

-- What the gate protects: the secrets of the apps and the challenges of the registrations.
abbrev guarded_part : Store → List TotpCredential × List (ℕ × String)
guarded_part s = (s.totp_credentials, s.pending_registration_challenges)

consume_backup_code-guarded_part :
    (x : External) (user_id now : ℕ) (code : String) (s : Store)
    → guarded_part (consume_backup_code x user_id code now s).1 ≡ guarded_part s
unfolding consume_backup_code
consume_backup_code-guarded_part x user_id now code s = ground arith

prove_passkey-guarded_part :
    (x : External) (user_id now : ℕ) (challenge id answer : String) (s : Store)
    → guarded_part (prove_passkey x user_id challenge id answer now s).1 ≡ guarded_part s
unfolding prove_passkey
prove_passkey-guarded_part x user_id now challenge id answer s = ground arith

prove_ceremony-guarded_part :
    (x : External) (user_id now : ℕ) (challenge : Option String)
    (response : Option (Option String × String)) (s : Store)
    → guarded_part (prove_ceremony x user_id challenge response now s).1 ≡ guarded_part s
prove_ceremony-guarded_part x user_id now none response s = refl
prove_ceremony-guarded_part x user_id now (some challenge) none s = refl
prove_ceremony-guarded_part x user_id now (some challenge) (some (none, answer)) s =
    elim (Bool-cases (challenge == "")) [ inl blank ↦ rw blank refl | inr given ↦ rw given refl ]
prove_ceremony-guarded_part x user_id now (some challenge) (some (some id, answer)) s =
    elim (Bool-cases (challenge == "")) [
      | inl blank ↦ rw blank refl
      | inr given ↦ rw given (prove_passkey-guarded_part x user_id now challenge id answer s)
    ]

abbrev attempted : Store → Option Attempt → Store
attempted s none = s
attempted s (some (_, s1)) = s1

attempt_proof-guarded_part :
    (x : External) (user_id now : ℕ) (p : Proof) (s : Store)
    → guarded_part (attempted s (attempt_proof x user_id p now s)) ≡ guarded_part s
unfolding attempt_proof burn_proof_challenge
attempt_proof-guarded_part x user_id now p s = elim (Bool-cases (is_method p.method "totp")) [
  | inl app ↦ rw app refl
  | inr other_than_app ↦ elim (Bool-cases (is_method p.method "backup_code")) [
    | inl backup ↦
        rw (other_than_app, backup) (consume_backup_code-guarded_part x user_id now p.code s)
    | inr other_than_backup ↦ elim (Bool-cases (is_method p.method "passkey")) [
      | inl key ↦
          rw (other_than_app, other_than_backup, key)
            (prove_ceremony-guarded_part x user_id now (get user_id s.pending_proof_challenges)
              p.response (burn_proof_challenge user_id s))
      | inr other_than_key ↦ rw (other_than_app, other_than_backup, other_than_key) refl
    ]
  ]
]

count_proof-guarded_part :
    (x : External) (key : String) (now : ℕ) (attempt : Option Attempt) (s : Store)
    → guarded_part (count_proof x key now attempt s).1 ≡ guarded_part (attempted s attempt)
unfolding count_proof record_failed_mfa_attempt reset_mfa_lockout
count_proof-guarded_part x key now none s = refl
count_proof-guarded_part x key now (some (err e, s1)) s = refl
count_proof-guarded_part x key now (some (ok true, s1)) s = refl
count_proof-guarded_part x key now (some (ok false, s1)) s = refl

verify_existing_mfa_proof-guarded_part :
    (x : External) (user_id now : ℕ) (p : Proof) (s : Store)
    → guarded_part (verify_existing_mfa_proof x user_id p now s).1 ≡ guarded_part s
unfolding verify_existing_mfa_proof
verify_existing_mfa_proof-guarded_part x user_id now p s =
    elim (Bool-cases (is_mfa_locked_out (proof_key user_id) now s)) [
      | inl locked ↦ rw locked refl
      | inr free ↦ rw free (
          count_proof-guarded_part x (proof_key user_id) now (attempt_proof x user_id p now s) s
          ∙ attempt_proof-guarded_part x user_id now p s)
    ]

abbrev pub is_proven : Result Thrown Bool → Bool
is_proven (err _) = false
is_proven (ok proven) = proven

with_proof-split :
    (attempt : Attempt) (next : Store → Reply × Store)
    → (is_proven attempt.0 ≡ true → with_proof attempt next ≡ next attempt.1)
      × (is_proven attempt.0 ≡ false → (with_proof attempt next).1 ≡ attempt.1)
with_proof-split (err e, s1) next = ground arith
with_proof-split (ok true, s1) next = ground arith
with_proof-split (ok false, s1) next = ground arith

-- A user with an enrolled factor who asks for an authenticator app or a passkey gets it begun, in
-- the state the proof leaves, when the proof of an existing factor holds. Without a proof (a wrong
-- one, a lockout, or a library that throws) no secret and no registration challenge of anyone
-- changes. With no factor enrolled, or for the email, the set-up begins at once.
pub setup_start_lem :
    (x : External) (user : User) (method : Option String) (p : Proof) (draws : SetupDraws) (now : ℕ)
    (s : Store)
    → let (result, s1) = verify_existing_mfa_proof x user.id p now s in
      let started = setup_start x user method p draws now s in
      let gated = is_gated x user method s in
      (gated ≡ false → started ≡ begin_setup x user method draws now s)
      × (gated ≡ true → is_proven result ≡ true → started ≡ begin_setup x user method draws now s1)
      × (gated ≡ true
          → is_proven result ≡ false
          → (started.1.totp_credentials ≡ s.totp_credentials)
            × (started.1.pending_registration_challenges ≡ s.pending_registration_challenges))
unfolding setup_start
setup_start_lem x user method p draws now s =
    let attempt = verify_existing_mfa_proof x user.id p now s in
    let split = with_proof-split attempt (begin_setup x user method draws now) in
    let kept = verify_existing_mfa_proof-guarded_part x user.id now p s in
    (
      (λ free. rw free refl),
      (λ gated proven. rw gated (split.0 proven)),
      (λ gated unproven. rw gated (
        ap (λ t. t.totp_credentials) (split.1 unproven) ∙ ap (λ t. t.0) kept,
        ap (λ t. t.pending_registration_challenges) (split.1 unproven) ∙ ap (λ t. t.1) kept,
      )),
    )
