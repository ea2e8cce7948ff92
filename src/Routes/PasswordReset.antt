-- ===== src/Routes/PasswordReset.antt =====
-- The routes of a forgotten password (api/src/routes/passwordReset.ts).
pub mod Single
use intern_logenhelfer_de.Base.{
  ℕ, ◌+◌, ◌-◌, ◌*◌, String, Bool, true, false, not, ◌&&◌, ◌||◌, Option, none, some, List, [], ◌∷◌,
  ◌++◌, ◌==◌, string_eq, nat_eq, if◌then◌else◌, find, update_where, leb, ltb, ok, err, or_else,
}
use Prim.Native.String
use Prim.Native.Char.{code}
use intern_logenhelfer_de.External.{External}
use intern_logenhelfer_de.Http.{Reply, empty, api_error_handler, error_reply}
use intern_logenhelfer_de.Store.{Store, User, Mail, password_reset, unknown_password_reset}
use intern_logenhelfer_de.Auth.RefreshToken.{revoke_all_families_for_user}
use intern_logenhelfer_de.Authz.Ability.{is_true}
use intern_logenhelfer_de.Routes.Grant.{plain}
use intern_logenhelfer_de.Routes.Params.{require_param}

abbrev pub min_password_length : ℕ
min_password_length = 8

-- `user !== null && user.deleted !== true && user.encrypted_password !== ''`
abbrev pub resettable : User → Bool
resettable u = not (is_true u.deleted) && not (u.encrypted_password == "")

abbrev pub is_token : String → Option String → Bool
is_token token_digest none = false
is_token token_digest (some t) = t == token_digest

abbrev pub with_token : String → ℕ → User → User
with_token token_digest now u = record u {
  reset_password_token = some token_digest;
  reset_password_sent_at = some now;
}

abbrev pub with_password : String → User → User
with_password encrypted u = record u {
  encrypted_password = encrypted;
  reset_password_token = none;
  reset_password_sent_at = none;
}

-- `sentAt !== null && Date.now() - sentAt.getTime() <= TTL * 1000`
abbrev pub within_ttl : ℕ → ℕ → Option ℕ → Bool
within_ttl ttl_seconds now none = false
within_ttl ttl_seconds now (some sent_at) = leb now (sent_at + ttl_seconds * 1000)

abbrev pub bad_link : Reply
bad_link = error_reply 422 "unprocessable" (some "Link ist ungültig oder abgelaufen")

abbrev pub too_short : String
too_short = "Password ist zu kurz (nicht weniger als 8 Zeichen)"

abbrev pub not_confirmed : String
not_confirmed = "Password stimmt nicht mit der Bestätigung überein"

-- The length of a text in UTF-16 code units.
abbrev pub utf16_length : String → ℕ
utf16_length String.[] = 0
utf16_length (String.◌∷◌ c s) = (if ltb (code c) 65_536 then 1 else 2) + utf16_length s

-- `errors.join(', ')`, or none without errors.
abbrev pub password_errors : String → String → Option String
password_errors new_password confirmation =
    let short = ltb (utf16_length new_password) min_password_length in
    if new_password == confirmation
    then if short then some too_short else none
    else if short
    then some (String.◌++◌ too_short (String.◌++◌ ", " not_confirmed))
    else some not_confirmed

module _ (x : External) (ttl_seconds : ℕ) where
  -- The mail to a person with an account that can be reset, else to the technical contact, if so
  -- configured. The link's host and the wording are not modelled.
  unfoldable pub start_reset : String → Option User → String → ℕ → Store → Store
  start_reset email none raw_token now s =
      if s.config.notify_technical_contact_on_unknown_password_reset
      then record s {
        mails =
            s.mails
            ++ unknown_password_reset (or_else s.config.technical_contact_email "") email ∷ [];
      }
      else s
  start_reset email (some u) raw_token now s = record s {
    users = update_where (λ v. v.id == u.id) (with_token (x.digest raw_token) now) s.users;
    mails = s.mails ++ password_reset u.email raw_token ∷ [];
  }

  abbrev pub only_resettable : Option User → Option User
  only_resettable none = none
  only_resettable (some u) = if resettable u then some u else none

  unfoldable pub forgot : Option String → String → ℕ → Store → Reply × Store
  unfolding require_param start_reset api_error_handler
  forgot body_email raw_token now s = elim (require_param x body_email "email") [
    | err e ↦ (api_error_handler e, s)
    | ok value ↦
        let email = x.trim (x.lower value) in
        (
          plain 200 empty,
          start_reset email (only_resettable (find (λ u. u.email == email) s.users)) raw_token now
              s,
        )
  ]

  -- The new password of the user of a valid token; the salt is the one bcrypt drew.
  unfoldable pub change_password : User → String → String → String → ℕ → Store → Reply × Store
  unfolding revoke_all_families_for_user
  change_password u new_password confirmation salt now s =
      elim (password_errors new_password confirmation) [
        | some detail ↦ (error_reply 422 "unprocessable" (some detail), s)
        | none ↦
            let s1 : Store = record s {
              users =
                  update_where (λ v. v.id == u.id) (with_password (x.hash salt new_password))
                    s.users;
            } in
            (plain 200 empty, revoke_all_families_for_user u.id now s1)
      ]

  unfoldable pub reset_for : String → String → String → String → ℕ → Store → Reply × Store
  unfolding change_password
  reset_for token new_password confirmation salt now s =
      elim (find (λ u. is_token (x.digest token) u.reset_password_token) s.users) [
        | none ↦ (bad_link, s)
        | some u ↦
            if is_true u.deleted || not (within_ttl ttl_seconds now u.reset_password_sent_at)
            then (bad_link, s)
            else change_password u new_password confirmation salt now s
      ]

  unfoldable pub reset :
      Option String → Option String → Option String → String → ℕ → Store → Reply × Store
  unfolding require_param reset_for api_error_handler
  reset body_token body_password body_confirmation salt now s =
      elim (require_param x body_token "token") [
        | err e ↦ (api_error_handler e, s)
        | ok token ↦ elim (require_param x body_password "new_password") [
          | err e ↦ (api_error_handler e, s)
          | ok new_password ↦ elim (require_param x body_confirmation "new_password_confirmation") [
            | err e ↦ (api_error_handler e, s)
            | ok confirmation ↦ reset_for token new_password confirmation salt now s
          ]
        ]
      ]
