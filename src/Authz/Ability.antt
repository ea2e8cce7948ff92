-- ===== src/Authz/Ability.antt =====
-- The abilities of a user: `buildAbility` and its helpers (api/src/authz/ability.ts).
pub mod Laws
pub mod Roles
use intern_logenhelfer_de.Base.{
  ℕ, suc, ◌≡◌, ◌≢◌, refl, sym, ap, ◌∙◌, String, Bool, true, false, not, ◌&&◌, ◌||◌, Option, none,
  some, List, [], ◌∷◌, ◌++◌, ◌==◌, string_eq, nat_eq, if◌then◌else◌, any, arith, eq_iff, All,
  All-append, Bool-cases, inl, inr, any-append,
}
use mathlib.Core.List.{append_assoc}
use intern_logenhelfer_de.Store.{User}
use intern_logenhelfer_de.Base.{map, select, length}
use intern_logenhelfer_de.Authz.Rules.{
  is_number, Action, SubjectName, Rule, Condition, has_id, is_deleted, is_admin_account, Target,
  Fields, fits, action_listed, action_code, Casl, workingplan, accept_gdpr, impersonate, manage,
  user, event,
}
use intern_logenhelfer_de.Authz.Grants.{
  can, can_if, cannot, cannot_if, role_ability_builders, admin_abilities,
  application_admin_abilities, role_table,
}

-- `roleNames.includes(name)`
abbrev pub has_role : List String → String → Bool
has_role role_names name = any (λ r. r == name) role_names

unfoldable pub is_admin : List String → Bool
is_admin role_names = has_role role_names "Admin"

-- The loop over the role names.
unfoldable pub role_rules : List String → ℕ → List Rule
role_rules [] user_id = []
role_rules (r ∷ rs) user_id = role_ability_builders r user_id ++ role_rules rs user_id

-- The guard that is always defined last.
unfoldable pub impersonate_guard : List String → ℕ → List Rule → List Rule
impersonate_guard role_names user_id rules =
    if not (is_admin role_names)
    then rules ++ cannot (impersonate ∷ []) user ∷ []
    else ((rules ++ cannot_if (impersonate ∷ []) user is_deleted ∷ [])
        ++ cannot_if (impersonate ∷ []) user (has_id user_id) ∷ [])
      ++ cannot_if (impersonate ∷ []) user is_admin_account ∷ []

-- The rules that `buildAbility` has registered when it calls `build()`, for a user by id.
unfoldable pub build_ability : Option ℕ → List String → List Rule
unfolding role_rules impersonate_guard
build_ability none role_names = can (workingplan ∷ []) event ∷ []
build_ability (some user_id) role_names = impersonate_guard role_names user_id (
    can (workingplan ∷ []) event
    ∷ can_if (accept_gdpr ∷ []) user (has_id user_id)
    ∷ role_rules role_names user_id)

-- `deleted === true`
abbrev pub is_true : Option Bool → Bool
is_true none = false
is_true (some b) = b

-- A row of `users` as a subject, with the flag that the guard needs.
unfoldable pub to_user_subject : User → List String → Target
to_user_subject u role_names = record {
  subject = user;
  fields = some (record {
    id = some u.id;
    user_id = none;
    deleted = is_true u.deleted;
    admin = is_admin role_names;
  });
}

-- `loadUserRoleNames`: the role ids of the user's rows that are not null, then the names of the
-- roles with these ids that are not null. A row of `user_roles` is a user id and a role id, one of
-- `roles` an id and a name.
abbrev pub some_values {ℓ} : {A : Type ℓ} → List (Option A) → List A
some_values [] = []
some_values (none ∷ xs) = some_values xs
some_values (some a ∷ xs) = a ∷ some_values xs

unfoldable pub load_user_role_names :
    ℕ → List (Option ℕ × Option ℕ) → List (ℕ × Option String) → List String
load_user_role_names user_id user_roles roles =
    let of_user : Option ℕ × Option ℕ → Bool = λ r. is_number user_id r.0 in
    let role_ids = some_values (map (λ r. r.1) (select of_user user_roles)) in
    if length role_ids == 0
    then []
    else some_values (map (λ r. r.1) (select (λ r. any (λ id. id == r.0) role_ids) roles))
