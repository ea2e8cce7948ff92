-- ===== src/Members/Access.antt =====
-- Who may see, change and remove a member (api/src/routes/members.ts).
use intern_logenhelfer_de.Base.{
  ℕ, String, Bool, not, ◌&&◌, ◌||◌, Option, none, some, List, [], ◌∷◌, ◌==◌, nat_eq, find,
  if◌then◌else◌,
}
use intern_logenhelfer_de.Store.{User}
use intern_logenhelfer_de.Authz.Rules.{
  Action, SubjectName, Rule, Target, Casl, user, user_role, show, update, destroy, create,
  google_sync, manage, csv_export, is_number,
}
use intern_logenhelfer_de.Authz.Ability.{to_user_subject, is_true}
use intern_logenhelfer_de.Authz.Visibility.{
  can_view_user_in_directory, can_manage_user_as_user_admin,
}

-- A question about a subject type.
abbrev pub class : SubjectName → Target
class name = record { subject = name; fields = none }

-- A row of `user_roles` is a user id and a role id, one of `roles` an id and a name.
abbrev pub name_in : ℕ → List (ℕ × Option String) → Option String
name_in role_id roles = elim (find (λ r. r.0 == role_id) roles) [ none ↦ none | some r ↦ r.1 ]

-- `roleNamesOf(await loadRoleRowsForUser(userId))`
abbrev pub push_name : Option String → List String → List String
push_name none names = names
push_name (some n) names = n ∷ names

unfoldable pub role_names_of :
    ℕ → List (Option ℕ × Option ℕ) → List (ℕ × Option String) → List String
role_names_of user_id [] roles = []
role_names_of user_id ((holder, none) ∷ user_roles) roles = role_names_of user_id user_roles roles
role_names_of user_id ((holder, some role_id) ∷ user_roles) roles =
    let rest = role_names_of user_id user_roles roles in
    if is_number user_id holder then push_name (name_in role_id roles) rest else rest

pub record VisibilityContext : Type 0 where
  pub ability : List Rule
  pub caller_role_names : List String
  pub show_admins : Bool

abbrev pub is_undeleted : User → Bool
is_undeleted target = not (is_true target.deleted)

module _ (casl : Casl) where
  abbrev pub can_on : List Rule → Action → User → List String → Bool
  can_on ability action target target_role_names =
      casl.can ability action (to_user_subject target target_role_names)

  abbrev pub reaches_default_user_abilities : List Rule → Bool
  reaches_default_user_abilities ability = casl.can ability google_sync (class user)

  abbrev pub reaches_user_admin_abilities : List Rule → Bool
  reaches_user_admin_abilities ability = casl.can ability manage (class user_role)

  abbrev pub listed : VisibilityContext → User → List String → Bool
  listed ctx target target_role_names =
      (reaches_default_user_abilities ctx.ability || reaches_user_admin_abilities ctx.ability)
      && (is_undeleted target
          && can_view_user_in_directory ctx.caller_role_names target_role_names ctx.show_admins)

  abbrev pub managed : VisibilityContext → User → List String → Bool
  managed ctx target target_role_names =
      reaches_user_admin_abilities ctx.ability
      && (is_undeleted target
          && can_manage_user_as_user_admin ctx.caller_role_names target_role_names ctx.show_admins)

  unfoldable pub can_show_row : VisibilityContext → User → List String → Bool
  can_show_row ctx target target_role_names =
      can_on ctx.ability show target target_role_names || listed ctx target target_role_names

  unfoldable pub can_list_row : VisibilityContext → Action → User → List String → Bool
  can_list_row ctx action target target_role_names =
      can_on ctx.ability action target target_role_names || listed ctx target target_role_names

  unfoldable pub can_update_row : VisibilityContext → User → List String → Bool
  can_update_row ctx target target_role_names =
      can_on ctx.ability update target target_role_names || managed ctx target target_role_names

  unfoldable pub can_destroy_row : VisibilityContext → User → List String → Bool
  can_destroy_row ctx target target_role_names =
      can_on ctx.ability destroy target target_role_names || managed ctx target target_role_names

  unfoldable pub can_csv_export_row : VisibilityContext → User → List String → Bool
  can_csv_export_row ctx target target_role_names =
      can_on ctx.ability csv_export target target_role_names || managed ctx target target_role_names

  unfoldable pub can_create_class : List Rule → Bool
  can_create_class ability =
      casl.can ability create (class user) || reaches_user_admin_abilities ability

  unfoldable pub can_members_list_class : List Rule → Bool
  can_members_list_class ability =
      reaches_default_user_abilities ability || reaches_user_admin_abilities ability

  unfoldable pub can_members_of_council_class : List Rule → Bool
  can_members_of_council_class ability = reaches_default_user_abilities ability

  unfoldable pub can_csv_export_class : List Rule → Bool
  can_csv_export_class ability =
      casl.can ability csv_export (class user) || reaches_user_admin_abilities ability
