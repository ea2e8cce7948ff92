-- ===== src/Routes/Me.antt =====
-- The own account: what a member changes about themselves (api/src/routes/me.ts).
pub mod Self
use Prim.Native.String
use intern_logenhelfer_de.Base.{
  ℕ, String, Bool, true, false, not, ◌&&◌, ◌||◌, Option, none, some, List, [], ◌∷◌, ◌++◌, ◌==◌,
  nat_eq, string_eq, if◌then◌else◌, any, select, update_where, is_some, Result, ok, err,
}
use intern_logenhelfer_de.External.{External}
use intern_logenhelfer_de.Http.{Reply, error_reply, api_error_handler}
use intern_logenhelfer_de.Store.{Store, User}
use intern_logenhelfer_de.Auth.RefreshToken.{revoke_all_families_for_user}
use intern_logenhelfer_de.Authz.Rules.{
  Casl, Action, Rule, SubjectName, Target, index, statistic, seeker, user_stats,
  update_announcement_subscription, accept_gdpr, update_birthday_calendar_consent, update_password,
}
use intern_logenhelfer_de.Authz.Ability.{to_user_subject}
use intern_logenhelfer_de.Events.Times.{BodyValue, absent, null, string, flag, other}
use intern_logenhelfer_de.Members.Access.{class}
use intern_logenhelfer_de.Members.Accounts.{Caller, forbidden}
use intern_logenhelfer_de.Routes.Params.{require_param}
use intern_logenhelfer_de.Routes.PasswordReset.{password_errors}

-- An error, or a status with the profile (`meJson`) of a user.
pub data MeReply : Type 0 where
  refused : Reply → MeReply
  profile : ℕ → User → MeReply

abbrev pub impersonating : MeReply
impersonating = refused (error_reply 403 "forbidden_while_impersonating" none)

-- `RAILS_BOOLEAN_FALSE_VALUES`, the texts.
abbrev pub rails_boolean_false_values : List String
rails_boolean_false_values = "0" ∷ "f" ∷ "F" ∷ "false" ∷ "FALSE" ∷ "off" ∷ "OFF" ∷ []

-- A list that holds 0 alone is not told apart from the number.
unfoldable pub cast_rails_boolean : BodyValue → Bool
cast_rails_boolean absent = false
cast_rails_boolean null = false
cast_rails_boolean (flag b) = b
cast_rails_boolean (string t) = not (t == "") && not (any (λ v. v == t) rails_boolean_false_values)
cast_rails_boolean (other t) = not (t == "0")

unfoldable pub subscribe : ℕ → Store → Store
subscribe user_id s =
    if any (λ id. id == user_id) s.announcement_subscriptions
    then s
    else record s { announcement_subscriptions = s.announcement_subscriptions ++ user_id ∷ [] }

unfoldable pub unsubscribe : ℕ → Store → Store
unsubscribe user_id s = record s {
  announcement_subscriptions = select (λ id. not (id == user_id)) s.announcement_subscriptions;
}

abbrev pub with_user : ℕ → (User → User) → Store → Store
with_user id f s = record s { users = update_where (λ u. u.id == id) f s.users }

abbrev pub accepted : User → User
accepted u = record u { accepted_gdpr = some true }

abbrev pub consenting : Bool → User → User
consenting consent u = record u { birthday_calendar_consent = consent }

abbrev pub with_new_password : String → User → User
with_new_password encrypted u = record u { encrypted_password = encrypted }

abbrev pub wrong_password : MeReply
wrong_password = refused (error_reply 422 "unprocessable" (some "Aktuelles Passwort ist falsch"))

module _ (casl : Casl) where
  abbrev pub can_on_self : Caller → Action → Bool
  can_on_self caller action = casl.can caller.ability action (to_user_subject caller.user [])

  -- `statisticsGatedForCaller`, on the setting `users_can_view_statistics`.
  unfoldable pub statistics_gated_for_caller : List Rule → Option Bool → Bool
  statistics_gated_for_caller ability users_can_view_statistics =
      if casl.can ability user_stats (class statistic)
      then false
      else elim users_can_view_statistics [ none ↦ false | some enabled ↦ not enabled ]

  -- `seekerNamesListAllowedForCaller`, on the setting `show_seeker_names_to_brothers`.
  unfoldable pub seeker_names_list_allowed_for_caller : List Rule → Option Bool → Bool
  seeker_names_list_allowed_for_caller ability show_seeker_names_to_brothers =
      if casl.can ability index (class seeker)
      then false
      else elim show_seeker_names_to_brothers [ none ↦ false | some shown ↦ shown ]

  -- The two guards with which every handler starts, before what it does.
  abbrev pub guarded : Caller → Action → Store → MeReply × Store → MeReply × Store
  guarded caller action s done =
      if is_some caller.impersonator
      then (impersonating, s)
      else if not (can_on_self caller action)
      then (refused forbidden, s)
      else done

  unfoldable pub announcement_subscription : Caller → BodyValue → Store → MeReply × Store
  unfolding cast_rails_boolean subscribe unsubscribe to_user_subject
  announcement_subscription caller subscribed s =
      guarded caller update_announcement_subscription s (
        profile 200 caller.user,
        if cast_rails_boolean subscribed
            then subscribe caller.user.id s
            else unsubscribe caller.user.id s,
      )

  unfoldable pub gdpr_acceptance : Caller → Store → MeReply × Store
  unfolding to_user_subject
  gdpr_acceptance caller s =
      guarded caller accept_gdpr s
        (profile 200 (accepted caller.user), with_user caller.user.id accepted s)

  -- `Boolean(consent)`, a value that the request's validation lets through only if it is a Boolean.
  unfoldable pub birthday_calendar_consent : Caller → Bool → Store → MeReply × Store
  unfolding to_user_subject
  birthday_calendar_consent caller consent s = guarded caller update_birthday_calendar_consent s (
    profile 200 (consenting consent caller.user),
    with_user caller.user.id (consenting consent) s,
  )

module _ (x : External) (casl : Casl) where
  -- The steps from the check of the current password on.
  unfoldable pub change_own_password :
      Caller → String → String → String → String → ℕ → Store → MeReply × Store
  unfolding revoke_all_families_for_user
  change_own_password caller current new_password confirmation salt now s =
      let u = caller.user in
      if not (not (u.encrypted_password == "") && x.compare current u.encrypted_password)
      then (wrong_password, s)
      else elim (password_errors new_password confirmation) [
        | some detail ↦ (refused (error_reply 422 "unprocessable" (some detail)), s)
        | none ↦ (
          profile 200 u,
          revoke_all_families_for_user u.id now
              (with_user u.id (with_new_password (x.hash salt new_password)) s),
        )
      ]

  unfoldable pub password :
      Caller → Option String → Option String → Option String → String → ℕ → Store → MeReply × Store
  unfolding change_own_password require_param api_error_handler to_user_subject
  password caller body_current body_new body_confirmation salt now s =
      guarded casl caller update_password s
        (elim (require_param x body_current "current_password") [
          | err e ↦ (refused (api_error_handler e), s)
          | ok current ↦ elim (require_param x body_new "new_password") [
            | err e ↦ (refused (api_error_handler e), s)
            | ok new_password ↦
                elim (require_param x body_confirmation "new_password_confirmation") [
                  | err e ↦ (refused (api_error_handler e), s)
                  | ok confirmation ↦
                      change_own_password caller current new_password confirmation salt now s
                ]
          ]
        ])
