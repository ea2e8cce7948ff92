-- ===== src/Authz/Ability/Roles.antt =====
-- Roles added together, and what the degrees alone allow.
use intern_logenhelfer_de.Base.{
  ℕ, ◌≡◌, ◌≢◌, refl, ap, ◌∙◌, String, Bool, true, false, ◌||◌, some, List, [], ◌∷◌, ◌==◌, string_eq,
  nat_eq, any, all, arith, eq_iff, Bool-cases, inl, inr, eq_refl,
}
use intern_logenhelfer_de.Store.{User}
use intern_logenhelfer_de.Authz.Rules.{
  Action, Target, fits, Casl, impersonate, google_sync, create_google_contact,
  update_google_contact,
}
use intern_logenhelfer_de.Authz.Grants.{default_user_abilities, role_ability_builders}
use intern_logenhelfer_de.Authz.Ability.{has_role, build_ability, to_user_subject}
use mathlib.Core.Bool.{or-true}
use intern_logenhelfer_de.Authz.Ability.Laws.{can-build_ability, base_fits, any_of_role}

any_more :
    (p : String → Bool) (names more : List String)
    → ((n : String) → has_role names n ≡ true → has_role more n ≡ true)
    → any p names ≡ true
    → any p more ≡ true
any_more p [] more sub h = cc
any_more p (n ∷ names) more sub h = elim (Bool-cases (p n)) [
  | inl here ↦ any_of_role p n more (sub n (rw eq_refl refl)) here
  | inr not_here ↦ any_more p names more (λ m k. sub m (rw k (or-true _))) (ground arith)
]

-- Whoever holds at least the roles of another may do at least the same, impersonation apart.
pub can-more_roles :
    (casl : Casl) (user_id : ℕ) (names more : List String) (a : Action) (t : Target)
    → a ≢ impersonate
    → ((n : String) → has_role names n ≡ true → has_role more n ≡ true)
    → casl.can (build_ability (some user_id) names) a t ≡ true
    → casl.can (build_ability (some user_id) more) a t ≡ true
can-more_roles casl user_id names more a t ne sub h =
    let p : String → Bool = λ n. any (fits a t) (role_ability_builders n user_id) in
    can-build_ability casl user_id more a t ne
    ∙ ground (arith, any_more p names more sub, can-build_ability casl user_id names a t ne)

-- The degrees of ordinary members.
abbrev pub is_degree : String → Bool
is_degree n = n == "EnteredApprentice" || (n == "FellowCraft" || n == "MasterMason")

abbrev pub is_contact_sync : Action → Bool
is_contact_sync google_sync = true
is_contact_sync create_google_contact = true
is_contact_sync update_google_contact = true
is_contact_sync _ = false

degree_fits_user :
    (a : Action) (u : User) (target_names : List String) (user_id : ℕ)
    → is_contact_sync a ≡ false
    → any (fits a (to_user_subject u target_names)) (default_user_abilities user_id) ≡ true
    → u.id ≡ user_id
unfolding default_user_abilities to_user_subject
degree_fits_user google_sync u target_names user_id h k = cc
degree_fits_user _ u target_names user_id h k = ground arith

degree_rows :
    (user_id : ℕ)
    → (role_ability_builders "EnteredApprentice" user_id ≡ default_user_abilities user_id)
      × (role_ability_builders "FellowCraft" user_id ≡ default_user_abilities user_id)
      × (role_ability_builders "MasterMason" user_id ≡ default_user_abilities user_id)
unfolding role_ability_builders
degree_rows user_id = (refl, refl, refl)

degree_rules :
    (n : String) (user_id : ℕ)
    → is_degree n ≡ true
    → role_ability_builders n user_id ≡ default_user_abilities user_id
degree_rules n user_id h = elim (Bool-cases (n == "EnteredApprentice")) [
  | inl e ↦ rw ((eq_iff n "EnteredApprentice").0 e) (degree_rows user_id).0
  | inr no_apprentice ↦ elim (Bool-cases (n == "FellowCraft")) [
    | inl e ↦ rw ((eq_iff n "FellowCraft").0 e) (degree_rows user_id).1
    | inr no_fellow ↦ rw ((eq_iff n "MasterMason").0 (ground arith)) (degree_rows user_id).2
  ]
]

any_degree :
    (a : Action) (u : User) (names target_names : List String) (user_id : ℕ)
    → all is_degree names ≡ true
    → is_contact_sync a ≡ false
    → any
        (λ n. any (fits a (to_user_subject u target_names)) (role_ability_builders n user_id))
        names
      ≡ true
    → u.id ≡ user_id
any_degree a u [] target_names user_id d c h = cc
any_degree a u (n ∷ names) target_names user_id d c h = ground (
  arith,
  ap (any (fits a (to_user_subject u target_names))) (degree_rules n user_id (ground arith)),
  degree_fits_user a u target_names user_id c,
  any_degree a u names target_names user_id (ground arith) c,
)

base_self :
    (a : Action) (u : User) (target_names : List String) (user_id : ℕ)
    → base_fits a (to_user_subject u target_names) user_id ≡ true
    → u.id ≡ user_id
unfolding to_user_subject
base_self a u target_names user_id h = ground arith

-- A user who holds degrees and no office may act on no other user's account: apart from the three
-- contact synchronisations, any action on a user is on the user's own row.
pub can-only_self :
    (casl : Casl) (user_id : ℕ) (names target_names : List String) (a : Action) (u : User)
    → all is_degree names ≡ true
    → a ≢ impersonate
    → is_contact_sync a ≡ false
    → casl.can (build_ability (some user_id) names) a (to_user_subject u target_names) ≡ true
    → u.id ≡ user_id
can-only_self casl user_id names target_names a u degrees ne other h =
    let target = to_user_subject u target_names in
    ground (
      arith,
      can-build_ability casl user_id names a target ne,
      base_self a u target_names user_id,
      any_degree a u names target_names user_id degrees other,
    )
