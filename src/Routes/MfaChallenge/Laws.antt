-- ===== src/Routes/MfaChallenge/Laws.antt =====
-- What the routes of a login's second factor promise.
use intern_logenhelfer_de.Base.{
  nat_eq, ℕ, ◌+◌, ◌≡◌, refl, sym, ◌∙◌, String, Bool, true, false, not, ◌&&◌, Option, none, some,
  List, ltb, if◌then◌else◌, Bool-cases, inl, inr,
}
use intern_logenhelfer_de.External.{External, IsVerified, AccessTokenPayload}
use intern_logenhelfer_de.Http.{empty, api_error, not_found, api_error_handler}
use intern_logenhelfer_de.Store.{Store, User, Lockout}
use intern_logenhelfer_de.Auth.Jwt.{
  now_seconds, access_payload, pending_payload, issue_access_token, issue_mfa_pending_token,
  verify_access_token,
}
use intern_logenhelfer_de.Auth.Lockout.{is_mfa_locked_out}
use intern_logenhelfer_de.Auth.Middleware.{Request, Guarded, authenticate_api_user}
use intern_logenhelfer_de.Auth.Middleware.Scopes.{header_of, bearer-header_of, authenticate-refused}
use intern_logenhelfer_de.Auth.RefreshToken.{find_user}
use intern_logenhelfer_de.Auth.TokenConfig.{TokenConfig}
use intern_logenhelfer_de.Routes.Grant.{Draws, plain, unauthorized, grant_session}
use intern_logenhelfer_de.Routes.MfaChallenge.{
  VerifyRequest, require_mfa_pending_token, verify, check_factor, reject_factor, accept_factor,
  remember, login_key, email_send, has_email_factor, to_login_method,
}
use intern_logenhelfer_de.Routes.Session.Login.{is_session}

require-pending :
    (x : External) (token : String) (t : ℕ) (s : Store) (p : AccessTokenPayload) (alive : Bool)
    → verify_access_token x token t ≡ (if alive then some p else none)
    → require_mfa_pending_token x (header_of token) t s
      ≡ (if alive then if p.mfa_pending then find_user p.sub s else none else none)
unfolding require_mfa_pending_token
require-pending x token t s p false valid =
    rw (bearer-header_of token, require_mfa_pending_token, valid) refl
require-pending x token t s p true valid =
    rw (bearer-header_of token, require_mfa_pending_token, valid) refl

both_none : {A : Type 0} (b : Bool) → (if◌then◌else◌ {A = Option A} b none none) ≡ none
both_none false = refl
both_none true = refl

-- A token of a pending login opens the routes of the second factor for its own user, until its 15
-- minutes are over, and no other route; an access token does not open the routes of the second
-- factor.
pub token_scopes :
    (x : External) (user_roles : List (Option ℕ × Option ℕ)) (roles : List (ℕ × Option String))
    (r : Request) (ttl_seconds user_id now t : ℕ) (act : Option ℕ) (s : Store)
    → IsVerified x (now_seconds t) (pending_payload user_id now)
    → IsVerified x (now_seconds t) (access_payload ttl_seconds user_id act now)
    → let pending = header_of (issue_mfa_pending_token x user_id now) in
      let access = header_of (issue_access_token x ttl_seconds user_id act now) in
      (authenticate_api_user x user_roles roles (record r { authorization = pending }) t s
        ≡ Guarded.unauthorized)
      × (require_mfa_pending_token x pending t s
          ≡ (if ltb (now_seconds t) (now_seconds now + 900) then find_user user_id s else none))
      × (require_mfa_pending_token x access t s ≡ none)
unfolding issue_mfa_pending_token issue_access_token verify_access_token
token_scopes x user_roles roles r ttl_seconds user_id now t act s pending access = (
  authenticate-refused x user_roles roles _ (x.sign (pending_payload user_id now)) t s
      (pending_payload user_id now) (ltb (now_seconds t) (now_seconds now + 900)) refl pending refl,
  require-pending x (x.sign (pending_payload user_id now)) t s (pending_payload user_id now)
      (ltb (now_seconds t) (now_seconds now + 900)) pending,
  require-pending x (x.sign (access_payload ttl_seconds user_id act now)) t s
        (access_payload ttl_seconds user_id act now)
        (ltb (now_seconds t) (now_seconds now + ttl_seconds)) access
      ∙ both_none (ltb (now_seconds t) (now_seconds now + ttl_seconds)),
)

accept_factor-is_session :
    (x : External) (ttl : TokenConfig) (user : User) (method : String) (remember_device : Bool)
    (user_agent ip : Option String) (draws : Draws) (now : ℕ) (s : Store)
    → is_session (accept_factor x ttl user method remember_device user_agent ip draws now s).0
      ≡ true
unfolding accept_factor remember grant_session
accept_factor-is_session x ttl user method false user_agent ip draws now s = refl
accept_factor-is_session x ttl user method true user_agent ip draws now s = refl

-- A second factor leads to a session exactly when the account is not locked and the factor is
-- proved. Every other answer is the same 401, and while the account is locked nothing is tried and
-- nothing changes.
pub verify_lem :
    (x : External) (ttl : TokenConfig) (user : User) (r : VerifyRequest) (draws : Draws) (now : ℕ)
    (s : Store)
    → let (reply, s') = verify x ttl user r draws now s in
      let locked = is_mfa_locked_out (login_key user) now s in
      let proven = (check_factor x user r.method r.code now s).0 in
      (is_session reply ≡ (not locked && proven))
      × (is_session reply ≡ false → reply ≡ unauthorized)
      × (locked ≡ true → s' ≡ s)
unfolding verify reject_factor
verify_lem x ttl user r draws now s = elim (Bool-cases (is_mfa_locked_out (login_key user) now s)) [
  | inl locked ↦ rw locked (refl, λ h. refl, λ h. refl)
  | inr free ↦
      let s1 = (check_factor x user r.method r.code now s).1 in
      elim (Bool-cases ((check_factor x user r.method r.code now s).0)) [
        | inl proven ↦
            let granted =
              accept_factor-is_session x ttl user (to_login_method r.method) r.remember_device
                r.user_agent r.ip draws now s1 in
            rw (free, proven) (granted, λ h. cc, λ h. cc)
        | inr wrong ↦ rw (free, wrong) (refl, λ h. refl, λ h. cc)
      ]
]

email_send-reply :
    (x : External) (user : User) (code salt : String) (now : ℕ) (s : Store)
    → (email_send x user code salt now s).0 ≡ (
        if not (has_email_factor user.id s)
        then api_error_handler (api_error not_found none)
        else plain 204 empty)
unfolding email_send
email_send-reply x user code salt now s = elim (Bool-cases (has_email_factor user.id s)) [
  | inl has ↦ elim (Bool-cases (is_mfa_locked_out (login_key user) now s)) [
    | inl locked ↦ rw (has, locked) refl
    | inr free ↦ rw (has, free) refl
  ]
  | inr lacks ↦ rw lacks refl
]

-- The reply to the request for a code by email does not tell whether the account is locked: it is
-- the same whatever the lockouts are, although no code is sent while it is.
pub email_send-silent :
    (x : External) (user : User) (code salt : String) (now : ℕ) (s : Store) (other : List Lockout)
    → ((email_send x user code salt now s).0
        ≡ (email_send x user code salt now (record s { mfa_lockouts = other })).0)
      × (is_mfa_locked_out (login_key user) now s ≡ true
          → (email_send x user code salt now s).1 ≡ s)
unfolding email_send
email_send-silent x user code salt now s other = (
  email_send-reply x user code salt now s
      ∙ sym (email_send-reply x user code salt now (record s { mfa_lockouts = other })),
  λ locked. elim (Bool-cases (has_email_factor user.id s)) [
    | inl has ↦ rw (has, locked) refl
    | inr lacks ↦ rw lacks refl
  ],
)
