-- ===== src/Routes/MfaChallenge/Ceremony.antt =====
-- A passkey's challenge in a login's second factor is used once.
use intern_logenhelfer_de.Base.{
  ℕ, ◌≡◌, refl, ap, ◌∙◌, String, Bool, true, false, Option, none, some, List, ◌==◌, nat_eq,
  if◌then◌else◌, get, delete, get-delete, Bool-cases, Option-cases, inl, inr,
}
use intern_logenhelfer_de.External.{External}
use intern_logenhelfer_de.Store.{Store, User}
use intern_logenhelfer_de.Auth.Lockout.{
  is_mfa_locked_out, record_failed_mfa_attempt, reset_mfa_lockout,
}
use intern_logenhelfer_de.Auth.DeviceTrust.{record_successful_sign_in, issue_trusted_device_token}
use intern_logenhelfer_de.Auth.RefreshToken.{issue_refresh_token}
use intern_logenhelfer_de.Auth.TokenConfig.{TokenConfig}
use intern_logenhelfer_de.Routes.Grant.{
  Draws, unauthorized, grant_session, send_login_success_email, send_login_lockout_email,
}
use intern_logenhelfer_de.Routes.MfaChallenge.{
  PasskeyVerifyRequest, reject_factor, accept_factor, remember, login_key, passkey_verify,
  burn_challenge, check_passkey, try_passkey, ceremony, new_counter,
}
use intern_logenhelfer_de.Routes.Session.Passkey.{find_credential, touch_passkey}

abbrev challenges : Store → List (ℕ × String)
challenges s = s.pending_login_passkey_challenges

success_email-challenges :
    (user : User) (method : String) (s : Store)
    → challenges (send_login_success_email user method s) ≡ challenges s
unfolding send_login_success_email
success_email-challenges user method s = elim (Bool-cases s.config.notify_user_on_login_activity) [
  | inl on ↦ rw on refl
  | inr off ↦ rw off refl
]

lockout_email-challenges :
    (user : User) (method : String) (s : Store)
    → challenges (send_login_lockout_email user method s) ≡ challenges s
unfolding send_login_lockout_email
lockout_email-challenges user method s = elim (Bool-cases s.config.notify_user_on_login_activity) [
  | inl on ↦ rw on refl
  | inr off ↦ rw off refl
]

armed-challenges :
    (locked_out : Bool) (user : User) (method : String) (s : Store)
    → challenges (if locked_out then send_login_lockout_email user method s else s) ≡ challenges s
armed-challenges false user method s = refl
armed-challenges true user method s = lockout_email-challenges user method s

reject_factor-challenges :
    (user : User) (method : String) (now : ℕ) (s : Store)
    → challenges (reject_factor user method now s).1 ≡ challenges s
unfolding reject_factor record_failed_mfa_attempt
reject_factor-challenges user method now s =
    let (locked_out, s1) = record_failed_mfa_attempt (login_key user) now s in
    armed-challenges locked_out user method s1

grant_session-challenges :
    (x : External) (ttl : TokenConfig) (user : User) (ip : Option String) (method : String)
    (draws : Draws) (now : ℕ) (s : Store)
    → challenges (grant_session x ttl user ip method none draws now s).1 ≡ challenges s
unfolding grant_session record_successful_sign_in issue_refresh_token
grant_session-challenges x ttl user ip method draws now s = success_email-challenges user method _

accept_factor-challenges :
    (x : External) (ttl : TokenConfig) (user : User) (method : String) (remember_device : Bool)
    (user_agent ip : Option String) (draws : Draws) (now : ℕ) (s : Store)
    → challenges (accept_factor x ttl user method remember_device user_agent ip draws now s).1
      ≡ challenges s
unfolding accept_factor remember issue_trusted_device_token reset_mfa_lockout
accept_factor-challenges x ttl user method false user_agent ip draws now s =
    grant_session-challenges x ttl user ip method draws now
      (reset_mfa_lockout (login_key user) now s)
accept_factor-challenges x ttl user method true user_agent ip draws now s =
    grant_session-challenges x ttl user ip method draws now
      (reset_mfa_lockout (login_key user) now s)

abbrev judged : Option ℕ → ℕ → ℕ → Store → Bool × Store
judged counter id now s = elim counter [
  | none ↦ (false, s)
  | some n ↦ (true, touch_passkey id n now s)
]

judged-challenges :
    (counter : Option ℕ) (id now : ℕ) (s : Store)
    → challenges (judged counter id now s).1 ≡ challenges s
unfolding touch_passkey
judged-challenges none id now s = refl
judged-challenges (some n) id now s = refl

check_passkey-challenges :
    (x : External) (user : User) (challenge id answer : String) (now : ℕ) (s : Store)
    → challenges (check_passkey x user challenge id answer now s).1 ≡ challenges s
unfolding check_passkey
check_passkey-challenges x user challenge id answer now s =
    elim (Option-cases (find_credential id s)) [
      | inl missing ↦ rw (missing, check_passkey) refl
      | inr (stored, found) ↦ elim (Bool-cases (stored.user_id == user.id)) [
        | inl own ↦
            rw (found, check_passkey, own)
              (judged-challenges
                (new_counter (
                  x.verify_authentication answer challenge stored.credential_id stored.public_key
                    stored.sign_count))
                stored.id now s)
        | inr foreign ↦ rw (found, check_passkey, foreign) refl
      ]
    ]

try_passkey-challenges :
    (x : External) (user : User) (c : Option (String × String)) (answer : String) (now : ℕ)
    (s : Store)
    → challenges (try_passkey x user c answer now s).1 ≡ challenges s
try_passkey-challenges x user none answer now s = refl
try_passkey-challenges x user (some (challenge, id)) answer now s =
    check_passkey-challenges x user challenge id answer now s

passkey_verify-challenges :
    (x : External) (ttl : TokenConfig) (user : User) (r : PasskeyVerifyRequest) (draws : Draws)
    (now : ℕ) (s : Store)
    → is_mfa_locked_out (login_key user) now s ≡ false
    → challenges (passkey_verify x ttl user r draws now s).1 ≡ delete user.id (challenges s)
unfolding passkey_verify burn_challenge
passkey_verify-challenges x ttl user r draws now s free =
    let c = ceremony (get user.id (challenges s)) r.response_id in
    let (proven, s1) = try_passkey x user c r.answer now (burn_challenge user s) in
    let burnt = try_passkey-challenges x user c r.answer now (burn_challenge user s) in
    elim (Bool-cases proven) [
      | inl right ↦
          rw (free, right)
            (accept_factor-challenges x ttl user "passkey" r.remember_device r.user_agent r.ip draws
                now s1
              ∙ burnt)
      | inr wrong ↦ rw (free, wrong) (reject_factor-challenges user "passkey" now s1 ∙ burnt)
    ]

-- Without a challenge that waits for the user every answer is refused.
passkey_verify-none :
    (x : External) (ttl : TokenConfig) (user : User) (r : PasskeyVerifyRequest) (draws : Draws)
    (now : ℕ) (s : Store)
    → get user.id (challenges s) ≡ none
    → (passkey_verify x ttl user r draws now s).0 ≡ unauthorized
unfolding passkey_verify reject_factor
passkey_verify-none x ttl user r draws now s gone =
    elim (Bool-cases (is_mfa_locked_out (login_key user) now s)) [
      | inl locked ↦ rw locked refl
      | inr free ↦ rw (free, gone) refl
    ]

-- A challenge is used up by the first answer that is judged, be it right, wrong or unreadable: the
-- next answer is refused whatever it is, until new options are asked for.
pub passkey_verify-once :
    (x : External) (ttl : TokenConfig) (user : User) (r next : PasskeyVerifyRequest)
    (draws others : Draws) (now t : ℕ) (s : Store)
    → is_mfa_locked_out (login_key user) now s ≡ false
    → let s' = (passkey_verify x ttl user r draws now s).1 in
      (passkey_verify x ttl user next others t s').0 ≡ unauthorized
passkey_verify-once x ttl user r next draws others now t s free =
    let s' = (passkey_verify x ttl user r draws now s).1 in
    passkey_verify-none x ttl user next others t s' (
      ap (get user.id) (passkey_verify-challenges x ttl user r draws now s free)
      ∙ get-delete user.id (challenges s))
