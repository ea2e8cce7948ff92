-- ===== src/Tests/Members.antt =====
-- Roles, accounts and mobile numbers of two members.
use intern_logenhelfer_de.Base.{
  ℕ, ◌≡◌, refl, String, true, false, none, some, List, [], ◌∷◌, find, ◌==◌, string_eq, arith,
  nat_beq_iff, ap, if◌then◌else◌, All, ◌||◌,
}
use intern_logenhelfer_de.Http.{session}
use intern_logenhelfer_de.Auth.Jwt.{issue_access_token}
use intern_logenhelfer_de.Authz.Ability.{
  build_ability, impersonate_guard, role_rules, is_admin, load_user_role_names, to_user_subject,
}
use intern_logenhelfer_de.Authz.Grants.{role_ability_builders}
use intern_logenhelfer_de.Members.Access.{can_destroy_row, role_names_of}
use intern_logenhelfer_de.Mfa.Status.{user_has_verified_mfa, non_empty}
use intern_logenhelfer_de.Members.AdminAccount.{Accounts, sync_admin_account_from_env}
use intern_logenhelfer_de.Members.AdminAccount.Boot.{IsReady, sync_admin_account_from_env_lem}
use intern_logenhelfer_de.Members.Mobile.{Address, compute_user_mobile, is_present}
use intern_logenhelfer_de.Members.Mobile.Best.{IsBest, compute_user_mobile_lem}
use intern_logenhelfer_de.Members.Roles.{
  Role, RoleTable, apply_role_ids, validate_roles_on_update, get_degree_date,
}
use intern_logenhelfer_de.Members.Roles.Offices.{OneHolder, apply_role_ids-OneHolder}
use intern_logenhelfer_de.Members.Accounts.{
  Caller, find_member_by_uuid, offboard, delete_member, mfa_reset, impersonate_member, may_destroy,
}
use intern_logenhelfer_de.Members.Accounts.Factors.{mfa_reset_lem}
use intern_logenhelfer_de.Members.Accounts.Acting.{impersonate_member_lem}
use intern_logenhelfer_de.Members.Accounts.Removal.{delete_member_lem}
use intern_logenhelfer_de.Members.Accounts.Login.{delete_member-login_as}
use intern_logenhelfer_de.Auth.Lockout.{is_locked_out}
use intern_logenhelfer_de.Auth.RefreshToken.{revoke_all_families_for_user}
use intern_logenhelfer_de.Routes.Session.{LoginRequest, login_as}
use intern_logenhelfer_de.Routes.Session.Login.{is_session, is_pending}
use intern_logenhelfer_de.Routes.Grant.{plain, auth_json_for}
use intern_logenhelfer_de.Authz.Rules.{update_password}
use intern_logenhelfer_de.Routes.Me.{password, can_on_self}
use intern_logenhelfer_de.Routes.Me.Self.{password_lem}
use intern_logenhelfer_de.Tests.Data.{packages, ttl, draws, casl, member, other_member, store}

abbrev roles : List Role
roles =
    (record { id = 1; name = some "Admin"; group = some false })
    ∷ (record { id = 2; name = some "EnteredApprentice"; group = some true })
    ∷ (record { id = 3; name = some "Secretary"; group = some false })
    ∷ []

abbrev role_table : RoleTable
role_table = record {
  rows =
      (record { id = 0; user_id = some 1; role_id = some 1; role_added_at = some 0 })
      ∷ (record { id = 1; user_id = some 2; role_id = some 2; role_added_at = some 0 })
      ∷ (record { id = 2; user_id = some 2; role_id = some 3; role_added_at = some 0 })
      ∷ [];
  next_id = 3;
}

abbrev admin : Caller
admin = record {
  user = member;
  ability = build_ability (some 1) ("Admin" ∷ []);
  impersonator = none;
}

abbrev request : LoginRequest
request = record {
  email = some "deleted-0-c@d.de";
  password = some "geheim12";
  device_token = none;
  ip = none;
}

abbrev business : Address
business = record {
  id = 3;
  addressable_id = 1;
  addressable_type = "User";
  type_of_address = some 1;
  mobile = some "333";
  deleted = none;
}

abbrev private : Address
private = record business { id = 4; type_of_address = some 0; mobile = some "444" }

compute_user_mobile_lem_example :
    IsBest packages
      (business ∷ private ∷ [])
      (compute_user_mobile packages (business ∷ private ∷ []))
unfolding compute_user_mobile is_present
compute_user_mobile_lem_example =
    (compute_user_mobile_lem packages (business ∷ private ∷ [])).1 (λ h. cc)

one_secretary : OneHolder 3 role_table.rows
one_secretary u v h k = ground (arith, nat_beq_iff u 2, nat_beq_iff v 2)

apply_role_ids-OneHolder_example :
    OneHolder 3 (apply_role_ids roles 1 (3 ∷ []) (1 ∷ 2 ∷ 3 ∷ []) role_table).rows
apply_role_ids-OneHolder_example =
    apply_role_ids-OneHolder roles 1 (3 ∷ []) (1 ∷ 2 ∷ 3 ∷ []) 3 role_table refl one_secretary

other_may_go : may_destroy packages ttl casl role_table roles true admin other_member ≡ true
unfolding can_destroy_row role_names_of build_ability role_ability_builders impersonate_guard
    role_rules is_admin load_user_role_names to_user_subject
other_may_go = refl

other_dated : non_empty (validate_roles_on_update roles 2 role_table) ≡ false
unfolding validate_roles_on_update get_degree_date
other_dated = refl

mfa_reset_lem_example :
    user_has_verified_mfa 2
      (mfa_reset packages ttl casl role_table roles true admin "u2" "reset" 5 store).1
    ≡ false
unfolding find_member_by_uuid
mfa_reset_lem_example =
    ((mfa_reset_lem packages ttl casl role_table roles true admin "u2" "reset" 5 store other_member
        refl).1
      other_may_go).1

impersonate_member_lem_example :
    impersonate_member packages ttl casl role_table roles true admin "u2" 5 store ≡ (
      plain 200 (
          session
            (issue_access_token packages ttl.jwt_access_ttl_seconds 2 (some 1) 5)
            (auth_json_for other_member store)
            none),
      record store { impersonation_events = (1, 2) ∷ [] },
    )
unfolding find_member_by_uuid is_admin load_user_role_names
impersonate_member_lem_example =
    (impersonate_member_lem packages ttl casl role_table roles true admin ("Admin" ∷ []) "u2" 5
        store other_member refl refl).0
      refl

delete_member_lem_example :
    find
      (λ u. u.email == other_member.email)
      (delete_member packages ttl casl role_table roles true admin "u2" 5 store).1.users
    ≡ none
unfolding find_member_by_uuid
delete_member_lem_example =
    ((delete_member_lem packages ttl casl role_table roles true admin "u2" 5 store other_member refl
        ((λ h. ap (λ (t : String). if t == "c@d.de" then 2 else 1) h), ((λ h. refl), tt))).2
      other_may_go other_dated).2

-- The removal takes place in the first second, so that the mark of the address is `deleted-0-`.
delete_member-login_as_example :
    let s' = (delete_member packages ttl casl role_table roles true admin "u2" 5 store).1 in
    let reply = (login_as packages ttl request "deleted-0-c@d.de" "geheim12" draws 9 s').0 in
    (is_session reply || is_pending reply) ≡ true
unfolding find_member_by_uuid is_locked_out delete_member offboard revoke_all_families_for_user
    build_ability is_admin role_ability_builders to_user_subject
delete_member-login_as_example =
    (delete_member-login_as packages ttl casl role_table roles true admin "u2" 5 store other_member
        refl ((λ h. ap (λ (t : String). if t == "c@d.de" then 2 else 1) h), ((λ h. refl), tt))
        (refl, (refl, tt)) (((λ h. omega (arith, h)), tt), (tt, tt)) other_may_go other_dated).1
      request "geheim12" draws 9 refl refl

abbrev accounts : Accounts
accounts = record {
  users = other_member ∷ [];
  user_roles = [];
  roles = (4, some "Secretary") ∷ (7, some "Admin") ∷ [];
  next_id = 9;
}

sync_admin_account_from_env_lem_example :
    (a' : Accounts) × (sync_admin_account_from_env packages
        (some "root@b.de")
        (some "geheim")
        "salt"
        5
        accounts
      ≡ (none, a'))
    × IsReady packages "root@b.de" "geheim" a'
    × ((next_salt : String) (later : ℕ)
        → (a2 : Accounts) × (sync_admin_account_from_env packages
              (some "root@b.de")
              (some "geheim")
              next_salt
              later
              a'
            ≡ (none, a2)))
sync_admin_account_from_env_lem_example =
    (sync_admin_account_from_env_lem packages "root@b.de" "geheim" "salt" 5 accounts refl refl).0
      refl

abbrev acting : Caller
acting = record admin { impersonator = some 2 }

abbrev mason : Caller
mason = record admin { ability = build_ability (some 1) ("MasterMason" ∷ []) }

mason_may : can_on_self casl mason update_password ≡ true
unfolding build_ability role_ability_builders impersonate_guard role_rules is_admin to_user_subject
mason_may = refl

password_lem_example :
    All
      (λ v. v.id ≡ 1 → packages.compare "neues Passwort" v.encrypted_password ≡ true)
      (password packages casl mason
        (some "geheim12")
        (some "neues Passwort")
        (some "neues Passwort")
        "salt"
        5
        store).1.users
password_lem_example =
    ((password_lem packages casl mason "geheim12" "neues Passwort" "neues Passwort" "salt" 5 store
        refl refl refl).0
      (rw mason_may refl)).1
