-- ===== src/Members/Accounts/Acting.antt =====
-- Who may act as whom.

use intern_logenhelfer_de.Base.{
  ℕ, ◌≡◌, refl, String, Bool, true, false, not, ◌&&◌, none, some, List, [], ◌∷◌, ◌++◌, map, ◌==◌,
  nat_eq, string_eq,
}
use intern_logenhelfer_de.External.{External}
use intern_logenhelfer_de.Http.{session}
use intern_logenhelfer_de.Store.{Store, User}
use intern_logenhelfer_de.Auth.TokenConfig.{TokenConfig}
use intern_logenhelfer_de.Authz.Rules.{Casl}
use intern_logenhelfer_de.Authz.Ability.{build_ability, load_user_role_names, is_admin, is_true}
use intern_logenhelfer_de.Authz.Ability.Laws.{can-impersonate}
use intern_logenhelfer_de.Auth.Jwt.{issue_access_token}
use intern_logenhelfer_de.Members.Accounts.{
  Caller, forbidden, impersonate_member, log_impersonation, find_member_by_uuid, impersonate_member,
  log_impersonation,
}
use intern_logenhelfer_de.Members.Roles.{Role, RoleTable}
use intern_logenhelfer_de.Routes.Grant.{plain, auth_json_for}

module _ (x : External) (ttl : TokenConfig) (casl : Casl) (roles : RoleTable)
    (role_rows : List Role) (show_admins : Bool) where
  -- Acting as a member is granted exactly to an administrator, for a member who is not deleted, is
  -- someone else and is no administrator; each grant is logged, and a refusal changes nothing.
  pub impersonate_member_lem :
      (caller : Caller) (names : List String) (uuid : String) (now : ℕ) (s : Store) (target : User)
      → caller.ability ≡ build_ability (some caller.user.id) names
      → find_member_by_uuid uuid s ≡ some target
      → let target_names =
          load_user_role_names target.id
            (map (λ r. (r.user_id, r.role_id)) roles.rows)
            (map (λ r. (r.id, r.name)) role_rows) in
        let done = impersonate_member x ttl casl roles role_rows show_admins caller uuid now s in
        let allowed =
          is_admin names
          && (not (is_true target.deleted)
              && (not (caller.user.id == target.id) && not (is_admin target_names))) in
        (allowed ≡ true
          → done ≡ (
            plain 200 (
                session
                  (issue_access_token x ttl.jwt_access_ttl_seconds target.id
                    (some caller.user.id)
                    now)
                  (auth_json_for target s)
                  none),
            record s {
              impersonation_events = s.impersonation_events ++ (caller.user.id, target.id) ∷ [];
            },
          ))
        × (allowed ≡ false → done ≡ (forbidden, s))
  unfolding impersonate_member log_impersonation
  impersonate_member_lem caller names uuid now s target built found =
      let target_names =
        load_user_role_names target.id (map (λ r. (r.user_id, r.role_id)) roles.rows)
          (map (λ r. (r.id, r.name)) role_rows) in
      let right = can-impersonate casl caller.user.id names target_names target in
      (
        (λ granted. rw (found, impersonate_member, built, right, granted) refl),
        (λ barred. rw (found, impersonate_member, built, right, barred) refl),
      )
