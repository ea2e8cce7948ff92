-- ===== src/Members/Accounts.antt =====
-- Removing a member, resetting a member's second factors, acting as a member
-- (api/src/routes/members.ts).
pub mod Acting
pub mod Factors
pub mod Login
pub mod Removal
use intern_logenhelfer_de.Base.{
  ℕ, suc, ◌/◌, String, Bool, true, false, not, ◌&&◌, ◌||◌, Option, none, some, List, [], ◌∷◌, ◌++◌,
  ◌==◌, nat_eq, string_eq, if◌then◌else◌, find, select, update_where, is_some,
}
use Prim.Native.String
use intern_logenhelfer_de.External.{External}
use intern_logenhelfer_de.Http.{
  Reply, empty, session, error_reply, api_error, not_found, api_error_handler,
}
use intern_logenhelfer_de.Store.{Store, User}
use intern_logenhelfer_de.Auth.Jwt.{issue_access_token}
use intern_logenhelfer_de.Auth.RefreshToken.{revoke_all_families_for_user}
use intern_logenhelfer_de.Auth.TokenConfig.{TokenConfig}
use intern_logenhelfer_de.Authz.Rules.{Casl, Rule, impersonate}
use intern_logenhelfer_de.Authz.Ability.{load_user_role_names}
use intern_logenhelfer_de.Members.Access.{VisibilityContext, can_on, can_destroy_row, role_names_of}
use intern_logenhelfer_de.Mfa.Status.{non_empty}
use intern_logenhelfer_de.Members.Roles.{Role, RoleTable, validate_roles_on_update}
use intern_logenhelfer_de.Base.{map, join_with}
use intern_logenhelfer_de.Routes.Grant.{plain, auth_json_for}
use intern_logenhelfer_de.Routes.Params.{decimal}

-- Who asks: the user of the token, the ability, and the impersonator, if the token names one.
pub record Caller : Type 0 where
  pub user : User
  pub ability : List Rule
  pub impersonator : Option ℕ

abbrev pub forbidden : Reply
forbidden = error_reply 403 "forbidden" none

abbrev pub missing_member : Reply
missing_member = error_reply 404 "not_found" none

unfoldable pub find_member_by_uuid : String → Store → Option User
find_member_by_uuid uuid s = find (λ u. elim u.uuid [ none ↦ false | some id ↦ id == uuid ]) s.users

-- ``email: `deleted-${Math.floor(Date.now() / 1000)}-${target.email}` ``
abbrev pub offboarded : User → ℕ → User → User
offboarded target now u = record u {
  deleted = some true;
  email =
      String.◌++◌ "deleted-" (String.◌++◌ (decimal (now / 1000)) (String.◌++◌ "-" target.email));
  updated_at = now;
}

unfoldable pub offboard : User → ℕ → Store → Store
offboard target now s = record s {
  users = update_where (λ u. u.id == target.id) (offboarded target now) s.users;
}

abbrev pub with_reset_token : String → ℕ → User → User
with_reset_token hashed now u = record u {
  reset_password_token = some hashed;
  reset_password_sent_at = some now;
}

-- The transaction of a reset.
unfoldable pub wipe_factors : User → User → String → ℕ → Store → Store
wipe_factors admin target hashed now s = record s {
  totp_credentials = select (λ c. not (c.user_id == target.id)) s.totp_credentials;
  email_credentials = select (λ c. not (c.user_id == target.id)) s.email_credentials;
  passkey_credentials = select (λ c. not (c.user_id == target.id)) s.passkey_credentials;
  backup_codes = select (λ c. not (c.user_id == target.id)) s.backup_codes;
  trusted_devices = select (λ d. not (d.user_id == target.id)) s.trusted_devices;
  users = update_where (λ u. u.id == target.id) (with_reset_token hashed now) s.users;
  mfa_reset_events = s.mfa_reset_events ++ (admin.id, target.id) ∷ [];
}

unfoldable pub log_impersonation : User → User → Store → Store
log_impersonation admin target s = record s {
  impersonation_events = s.impersonation_events ++ (admin.id, target.id) ∷ [];
}

module _ (x : External) (ttl : TokenConfig) (casl : Casl) (t : RoleTable) (role_rows : List Role)
    (show_admins : Bool) where
  abbrev pub user_roles : List (Option ℕ × Option ℕ)
  user_roles = map (λ r. (r.user_id, r.role_id)) t.rows

  abbrev pub roles : List (ℕ × Option String)
  roles = map (λ r. (r.id, r.name)) role_rows

  abbrev pub context : Caller → VisibilityContext
  context caller = record {
    ability = caller.ability;
    caller_role_names = load_user_role_names caller.user.id user_roles roles;
    show_admins = show_admins;
  }

  abbrev pub may_destroy : Caller → User → Bool
  may_destroy caller target =
      can_destroy_row casl (context caller) target (role_names_of target.id user_roles roles)

  abbrev pub invalid_roles : List String → Reply
  invalid_roles errors = error_reply 422 "unprocessable" (some (join_with ", " errors))

  unfoldable pub delete_member : Caller → String → ℕ → Store → Reply × Store
  unfolding find_member_by_uuid can_destroy_row validate_roles_on_update offboard
      revoke_all_families_for_user
  delete_member caller uuid now s = elim (find_member_by_uuid uuid s) [
    | none ↦ (missing_member, s)
    | some target ↦
        if not (may_destroy caller target)
        then (forbidden, s)
        else let errors = validate_roles_on_update role_rows target.id t in
          if non_empty errors
          then (invalid_roles errors, s)
          else (plain 204 empty, revoke_all_families_for_user target.id now (offboard target now s))
  ]

  unfoldable pub mfa_reset : Caller → String → String → ℕ → Store → Reply × Store
  unfolding find_member_by_uuid can_destroy_row wipe_factors revoke_all_families_for_user
  mfa_reset caller uuid reset_token now s =
      if is_some caller.impersonator then (forbidden, s) else elim (find_member_by_uuid uuid s) [
        | none ↦ (missing_member, s)
        | some target ↦
            if target.id == caller.user.id || not (may_destroy caller target)
            then (forbidden, s)
            else (
              plain 204 empty,
              revoke_all_families_for_user target.id now
                  (wipe_factors caller.user target (x.digest reset_token) now s),
            )
      ]

  -- The token is the target's and names the caller as the actor.
  unfoldable pub impersonate_member : Caller → String → ℕ → Store → Reply × Store
  unfolding find_member_by_uuid log_impersonation issue_access_token
  impersonate_member caller uuid now s = elim (find_member_by_uuid uuid s) [
    | none ↦ (missing_member, s)
    | some target ↦
        if not (
          can_on casl caller.ability impersonate target
            (load_user_role_names target.id user_roles roles))
        then (forbidden, s)
        else (
          plain 200 (
              session
                (issue_access_token x ttl.jwt_access_ttl_seconds target.id (some caller.user.id)
                  now)
                (auth_json_for target s) none),
          log_impersonation caller.user target s,
        )
  ]
