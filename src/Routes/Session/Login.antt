-- ===== src/Routes/Session/Login.antt =====
-- What a login by password comes to.
use intern_logenhelfer_de.Base.{
  ℕ, ◌≡◌, refl, ◌∙◌, String, Bool, true, false, not, ◌&&◌, ◌||◌, Option, none, some, Option-cases,
  Bool-cases, inl, inr, ap, List, sym,
}
use intern_logenhelfer_de.External.{External}
use intern_logenhelfer_de.Http.{Reply, session, mfa_pending}
use intern_logenhelfer_de.Store.{Store, User, Mail}
use intern_logenhelfer_de.Auth.DeviceTrust.{is_device_trusted}
use intern_logenhelfer_de.Auth.Lockout.{is_locked_out, record_failed_login, reset_login_lockout}
use intern_logenhelfer_de.Auth.Lockout.Throttle.{failing_login}
use intern_logenhelfer_de.Auth.TokenConfig.{TokenConfig}
use intern_logenhelfer_de.Mfa.Status.{get_user_mfa_methods, non_empty}
use intern_logenhelfer_de.Routes.Grant.{Draws, grant_session, send_login_lockout_email}
use intern_logenhelfer_de.Routes.Session.{
  LoginRequest, login_as, check_password, after_password, reject_password, password_valid,
  find_email, invalid_credentials, notify_lockout,
}

abbrev pub is_session : Reply → Bool
is_session r = elim r.body [ session _ _ _ ↦ true | _ ↦ false ]

abbrev pub is_pending : Reply → Bool
is_pending r = elim r.body [ mfa_pending _ ↦ true | _ ↦ false ]

-- No second factor is asked of the user: none is enrolled, or the device is trusted.
abbrev pub is_unchallenged : External → LoginRequest → User → ℕ → Store → Bool
is_unchallenged x r u now s =
    not (non_empty (get_user_mfa_methods u.id s)) || is_device_trusted x u.id r.device_token now s

abbrev pub unchallenged : External → LoginRequest → Option User → ℕ → Store → Bool
unchallenged x r none now s = false
unchallenged x r (some u) now s = is_unchallenged x r u now s

after_password_lem :
    (x : External) (ttl : TokenConfig) (r : LoginRequest) (u : User) (draws : Draws) (now : ℕ)
    (s : Store)
    → let (reply, _) = after_password x ttl r u draws now s in
      (is_session reply ≡ is_unchallenged x r u now s)
      × (is_pending reply ≡ not (is_unchallenged x r u now s))
unfolding after_password grant_session
after_password_lem x ttl r u draws now s =
    elim (Bool-cases (non_empty (get_user_mfa_methods u.id s))) [
      | inl enrolled ↦ elim (Bool-cases (is_device_trusted x u.id r.device_token now s)) [
        | inl trusted ↦ rw (enrolled, trusted) (refl, refl)
        | inr untrusted ↦ rw (enrolled, untrusted) (refl, refl)
      ]
      | inr empty ↦ rw empty (refl, refl)
    ]

trusted-reset :
    (x : External) (user_id now t : ℕ) (raw : Option String) (email : String) (s : Store)
    → is_device_trusted x user_id raw t (reset_login_lockout email now s)
      ≡ is_device_trusted x user_id raw t s
unfolding is_device_trusted reset_login_lockout
trusted-reset x user_id now t none email s = refl
trusted-reset x user_id now t (some raw) email s = refl

unchallenged-reset :
    (x : External) (r : LoginRequest) (u : User) (now : ℕ) (email : String) (s : Store)
    → is_unchallenged x r u now (reset_login_lockout email now s) ≡ is_unchallenged x r u now s
unfolding reset_login_lockout get_user_mfa_methods
unchallenged-reset x r u now email s =
    ap (λ b. not (non_empty (get_user_mfa_methods u.id s)) || b)
      (trusted-reset x u.id now now r.device_token email s)

-- A login leads to a session exactly when the email is not locked, the password is right, and no
-- second factor is enrolled or the device is trusted; to the token of a pending second factor
-- exactly when the first two hold and the last does not; and to the same refusal in every other
-- case, be the email locked, unknown, or the password wrong.
pub login_as_lem :
    (x : External) (ttl : TokenConfig) (r : LoginRequest) (email password : String) (draws : Draws)
    (now : ℕ) (s : Store)
    → let (reply, _) = login_as x ttl r email password draws now s in
      let right =
        not (is_locked_out email now s) && password_valid x (find_email email s) password in
      let passes = unchallenged x r (find_email email s) now s in
      (is_session reply ≡ (right && passes))
      × (is_pending reply ≡ (right && not passes))
      × (right ≡ false → reply ≡ invalid_credentials)
unfolding login_as check_password reject_password
login_as_lem x ttl r email password draws now s = elim (Bool-cases (is_locked_out email now s)) [
  | inl locked ↦ rw locked (refl, refl, λ h. refl)
  | inr free ↦ elim (Option-cases (find_email email s)) [
    | inl unknown ↦ rw (free, unknown) (refl, refl, λ h. refl)
    | inr (u, found) ↦ elim (Bool-cases (password_valid x (some u) password)) [
      | inl valid ↦
          let h = after_password_lem x ttl r u draws now (reset_login_lockout email now s) in
          let same = unchallenged-reset x r u now email s in
          rw (free, found, valid) (h.0 ∙ same, h.1 ∙ ap not same, λ e. cc)
      | inr wrong ↦ rw (free, found, wrong) (refl, refl, λ e. refl)
    ]
  ]
]

abbrev pub with_mails : List Mail → Store → Store
with_mails mails s = record s { mails = mails }

notify_lockout-mails :
    (locked_out : Bool) (u : Option User) (method : String) (s : Store)
    → notify_lockout locked_out u method s
      ≡ with_mails (notify_lockout locked_out u method s).mails s
unfolding notify_lockout send_login_lockout_email
notify_lockout-mails locked_out none method s = refl
notify_lockout-mails false (some u) method s = refl
notify_lockout-mails true (some u) method s =
    elim (Bool-cases s.config.notify_user_on_login_activity) [
      | inl on ↦ rw on refl
      | inr off ↦ rw off refl
    ]

reject_password-mails :
    (email : String) (u : Option User) (now : ℕ) (s : Store)
    → let s' = (reject_password email u now s).1 in
      s' ≡ with_mails s'.mails (record_failed_login email now s).1
unfolding reject_password
reject_password-mails email u now s =
    let (locked_out, s1) = record_failed_login email now s in
    notify_lockout-mails locked_out u "password" s1

failing_login-locked :
    (email : String) (now : ℕ) (s : Store)
    → is_locked_out email now s ≡ true
    → failing_login email now s ≡ s
unfolding failing_login
failing_login-locked email now s locked = rw locked refl

failing_login-free :
    (email : String) (now : ℕ) (s : Store)
    → is_locked_out email now s ≡ false
    → failing_login email now s ≡ (record_failed_login email now s).1
unfolding failing_login
failing_login-free email now s free = rw free refl

-- A login that is refused changes the lockouts as one failure of the throttle does, that is not at
-- all while the email is locked, and nothing else but the mails.
pub login_as-refused :
    (x : External) (ttl : TokenConfig) (r : LoginRequest) (email password : String) (draws : Draws)
    (now : ℕ) (s : Store)
    → (not (is_locked_out email now s) && password_valid x (find_email email s) password) ≡ false
    → let s' = (login_as x ttl r email password draws now s).1 in
      s' ≡ with_mails s'.mails (failing_login email now s)
unfolding login_as check_password
login_as-refused x ttl r email password draws now s wrong =
    elim (Bool-cases (is_locked_out email now s)) [
      | inl locked ↦ rw (locked, failing_login-locked email now s locked) refl
      | inr free ↦ elim (Option-cases (find_email email s)) [
        | inl unknown ↦
            rw (free, unknown, failing_login-free email now s free)
              (reject_password-mails email none now s)
        | inr (u, found) ↦
            let same : (not (is_locked_out email now s)
                  && password_valid x (find_email email s) password)
                ≡ password_valid x (some u) password =
              rw (free, found) refl in
            let refused : password_valid x (some u) password ≡ false = sym same ∙ wrong in
            rw (free, found, refused, failing_login-free email now s free)
              (reject_password-mails email (some u) now s)
      ]
    ]
