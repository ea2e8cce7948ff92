-- ===== src/Routes/Session/Passkey.antt =====
-- Login by passkey, without a password (api/src/routes/session.ts).
use intern_logenhelfer_de.Base.{
  ℕ, ◌+◌, ◌*◌, String, Bool, false, not, ◌&&◌, Option, none, some, ◌==◌, string_eq, nat_eq,
  if◌then◌else◌, find, select, update_where, leb, get, set, delete,
}
use Prim.Native.String
use intern_logenhelfer_de.External.{External, thrown, refused, verified}
use intern_logenhelfer_de.Http.{Reply, options, api_error_handler, other}
use intern_logenhelfer_de.Store.{Store, User, PasskeyCredential}
use intern_logenhelfer_de.Auth.Lockout.{
  is_mfa_locked_out, record_failed_mfa_attempt, reset_mfa_lockout,
}
use intern_logenhelfer_de.Auth.RefreshToken.{find_user}
use intern_logenhelfer_de.Auth.TokenConfig.{TokenConfig}
use intern_logenhelfer_de.Authz.Ability.{is_true}
use intern_logenhelfer_de.Routes.Grant.{
  unauthorized, Draws, plain, grant_session, send_login_lockout_email,
}

abbrev pub passkey_challenge_ttl_ms : ℕ
passkey_challenge_ttl_ms = 5 * 60_000

-- The part of the browser's answer that the handler reads, and the whole answer.
pub record PasskeyResponse : Type 0 where
  pub id : Option String
  pub client_data : Option String
  pub answer : String

unfoldable pub prune_expired_passkey_challenges : ℕ → Store → Store
prune_expired_passkey_challenges now s = record s {
  passkey_login_challenges = select (λ c. not (leb c.1 now)) s.passkey_login_challenges;
}

-- `options.challenge` is what the library drew; the reply is the options.
unfoldable pub passkey_options : String → ℕ → Store → Reply × Store
unfolding prune_expired_passkey_challenges
passkey_options challenge now s =
    let s1 = prune_expired_passkey_challenges now s in
    (
      plain 200 (options challenge),
      record s1 {
        passkey_login_challenges =
            set challenge (now + passkey_challenge_ttl_ms) s1.passkey_login_challenges;
      },
    )

abbrev pub passkey_key : String → String
passkey_key credential_id = String.◌++◌ "passkey:" credential_id

abbrev pub find_credential : String → Store → Option PasskeyCredential
find_credential credential_id s = find (λ c. c.credential_id == credential_id) s.passkey_credentials

abbrev pub count_use : ℕ → ℕ → PasskeyCredential → PasskeyCredential
count_use new_counter now c = record c { sign_count = new_counter; last_used_at = some now }

-- The update by the row's id after an accepted answer.
unfoldable pub touch_passkey : ℕ → ℕ → ℕ → Store → Store
touch_passkey id new_counter now s = record s {
  passkey_credentials =
      update_where (λ c. c.id == id) (count_use new_counter now) s.passkey_credentials;
}

-- `challenge ? passkeyLoginChallenges.get(challenge) : undefined`, alive.
abbrev pub challenge_alive : String → ℕ → Store → Bool
challenge_alive challenge now s = elim (get challenge s.passkey_login_challenges) [
  | none ↦ false
  | some expires_at ↦ not (challenge == "") && not (leb expires_at now)
]

unfoldable pub burn_login_challenge : String → Store → Store
burn_login_challenge challenge s = record s {
  passkey_login_challenges = delete challenge s.passkey_login_challenges;
}

-- `if (owner && !owner.deleted)`
unfoldable pub notify_owner : Option User → Store → Store
unfolding send_login_lockout_email
notify_owner none s = s
notify_owner (some owner) s =
    if is_true owner.deleted then s else send_login_lockout_email owner "passkey" s

-- A refused answer counts as a failed attempt of the credential.
unfoldable pub reject_passkey : String → PasskeyCredential → ℕ → Store → Reply × Store
unfolding record_failed_mfa_attempt notify_owner
reject_passkey credential_id stored now s =
    let (locked_out, s1) = record_failed_mfa_attempt (passkey_key credential_id) now s in
    (unauthorized, notify_owner (if locked_out then find_user stored.user_id s1 else none) s1)

module _ (x : External) (ttl : TokenConfig) where
  -- The accepted answer: the account must exist and not be deleted.
  unfoldable pub accept_passkey :
      String → PasskeyCredential → ℕ → Option String → Draws → ℕ → Store → Reply × Store
  unfolding reset_mfa_lockout touch_passkey grant_session api_error_handler
  accept_passkey credential_id stored new_counter ip draws now s =
      let s1 =
        touch_passkey stored.id new_counter now
          (reset_mfa_lockout (passkey_key credential_id) now s) in
      elim (find_user stored.user_id s1) [
        | none ↦ (api_error_handler other, s1)
        | some user ↦
            if is_true user.deleted
            then (unauthorized, s1)
            else grant_session x ttl user ip "passkey" none draws now s1
      ]

  -- `verifyAuthentication` with the challenge used up: it may throw.
  unfoldable pub judge_passkey :
      String
      → PasskeyCredential
      → String
      → String
      → Option String
      → Draws
      → ℕ
      → Store
      → Reply × Store
  unfolding reject_passkey accept_passkey api_error_handler
  judge_passkey credential_id stored answer challenge ip draws now s =
      elim (x.verify_authentication answer challenge stored.credential_id stored.public_key
        stored.sign_count) [
          | thrown ↦ (api_error_handler other, s)
          | refused ↦ reject_passkey credential_id stored now s
          | verified new_counter ↦ accept_passkey credential_id stored new_counter ip draws now s
        ]

  -- The challenge is the one that the answer names; it must be one of those outstanding.
  unfoldable pub passkey_with_challenge :
      String
      → PasskeyCredential
      → String
      → Option String
      → Option String
      → Draws
      → ℕ
      → Store
      → Reply × Store
  unfolding judge_passkey burn_login_challenge
  passkey_with_challenge credential_id stored answer none ip draws now s = (unauthorized, s)
  passkey_with_challenge credential_id stored answer (some challenge) ip draws now s =
      if challenge_alive challenge now s
      then judge_passkey credential_id stored answer challenge ip draws now
          (burn_login_challenge challenge s)
      else (unauthorized, s)

  -- `response?.response?.clientDataJSON ? … : undefined`, where the parse may throw.
  abbrev pub named_challenge : Option String → Option (Option String)
  named_challenge none = some none
  named_challenge (some client_data) =
      if client_data == "" then some none else x.challenge_of client_data

  unfoldable pub passkey_for :
      PasskeyResponse → String → Option String → Draws → ℕ → Store → Reply × Store
  unfolding is_mfa_locked_out record_failed_mfa_attempt passkey_with_challenge api_error_handler
  passkey_for r credential_id ip draws now s =
      if is_mfa_locked_out (passkey_key credential_id) now s
      then (unauthorized, s)
      else elim (find_credential credential_id s) [
        | none ↦ (unauthorized, (record_failed_mfa_attempt (passkey_key credential_id) now s).1)
        | some stored ↦ elim (named_challenge r.client_data) [
          | none ↦ (api_error_handler other, s)
          | some challenge ↦
              passkey_with_challenge credential_id stored r.answer challenge ip draws now s
        ]
      ]

  unfoldable pub passkey_verify :
      PasskeyResponse → Option String → Draws → ℕ → Store → Reply × Store
  unfolding passkey_for
  passkey_verify r ip draws now s = elim r.id [
    | none ↦ (unauthorized, s)
    | some credential_id ↦
        if credential_id == ""
        then (unauthorized, s)
        else passkey_for r credential_id ip draws now s
  ]
