-- ===== src/Authz/Ability/Laws.antt =====
-- What the rules of a user come to, for every decision procedure with the laws of `Casl`.
use intern_logenhelfer_de.Base.{
  ℕ, ◌≡◌, ◌≢◌, refl, sym, ap, ◌∙◌, String, Bool, true, false, not, ◌&&◌, ◌||◌, Option, none, some,
  List, [], ◌∷◌, ◌++◌, ◌==◌, string_eq, nat_eq, any, all, arith, eq_iff, Bool-cases, inl, inr,
  any-append, find,
}
use mathlib.Core.List.{append_assoc, append-nil}
use intern_logenhelfer_de.Store.{User}
use intern_logenhelfer_de.Authz.Rules.{
  Action, Rule, has_id, Target, fits, action_code, Casl, workingplan, accept_gdpr, impersonate,
  user, event,
}
use intern_logenhelfer_de.Authz.Grants.{can, can_if, role_ability_builders, role_table}
use intern_logenhelfer_de.Authz.Ability.{
  has_role, is_admin, role_rules, impersonate_guard, build_ability, is_true, to_user_subject,
}

abbrev only_grants : List Rule → Bool
only_grants rules = all (λ r. not r.inverted) rules

only_grants-append :
    (xs ys : List Rule) → only_grants (xs ++ ys) ≡ (only_grants xs && only_grants ys)
only_grants-append [] ys = refl
only_grants-append (x ∷ xs) ys = ground (arith, only_grants-append xs ys)

abbrev rules_of : Option (String × List Rule) → List Rule
rules_of none = []
rules_of (some (name, rules)) = rules

rules_of-only_grants :
    (p : String × List Rule → Bool) (table : List (String × List Rule))
    → all (λ e. only_grants e.1) table ≡ true
    → only_grants (elim (find p table) [ none ↦ [] | some (name, rules) ↦ rules ]) ≡ true
rules_of-only_grants p [] h = refl
rules_of-only_grants p (e ∷ table) h = elim (Bool-cases (p e)) [
  | inl fits ↦ rw fits (ground arith)
  | inr other ↦ rw other (rules_of-only_grants p table (ground arith))
]

role_table-only_grants : (user_id : ℕ) → all (λ e. only_grants e.1) (role_table user_id) ≡ true
unfolding role_table
role_table-only_grants user_id = refl

role_rules-only_grants :
    (names : List String) (user_id : ℕ) → only_grants (role_rules names user_id) ≡ true
unfolding role_rules role_ability_builders
role_rules-only_grants [] user_id = refl
role_rules-only_grants (r ∷ rs) user_id =
    only_grants-append (role_ability_builders r user_id) (role_rules rs user_id)
    ∙ rw (role_rules-only_grants rs user_id) (
        rw (
          rules_of-only_grants (λ e. e.0 == r) (role_table user_id)
            (role_table-only_grants user_id)))

module _ (casl : Casl) (a : Action) (t : Target) where
  -- Rules that only grant: the order is of no account.
  can-append_grants :
      (xs ys : List Rule)
      → only_grants ys ≡ true
      → casl.can (xs ++ ys) a t ≡ (any (fits a t) ys || casl.can xs a t)
  can-append_grants xs [] h = ap (λ l. casl.can l a t) (append-nil xs)
  can-append_grants xs (y ∷ ys) h =
      ap (λ l. casl.can l a t) (sym (append_assoc xs (y ∷ []) ys))
      ∙ can-append_grants (xs ++ y ∷ []) ys (ground arith)
      ∙ rw (casl.can-append xs y a t) (ground arith)

  can-grants : (ys : List Rule) → only_grants ys ≡ true → casl.can ys a t ≡ any (fits a t) ys
  can-grants ys h = can-append_grants [] ys h ∙ rw (casl.can-nil a t) (ground arith)

pub ne_impersonate : (a : Action) → a ≢ impersonate → (37 == action_code a) ≡ false
ne_impersonate impersonate ne = absurd (ne refl)
ne_impersonate _ ne = refl

-- The two rules of every signed-in user.
abbrev pub base_fits : Action → Target → ℕ → Bool
base_fits a t user_id =
    fits a t (can (workingplan ∷ []) event)
    || fits a t (can_if (accept_gdpr ∷ []) user (has_id user_id))

any-role_rules :
    (a : Action) (t : Target) (names : List String) (user_id : ℕ)
    → any (fits a t) (role_rules names user_id)
      ≡ any (λ n. any (fits a t) (role_ability_builders n user_id)) names
unfolding role_rules
any-role_rules a t [] user_id = refl
any-role_rules a t (n ∷ names) user_id =
    any-append (fits a t) (role_ability_builders n user_id) (role_rules names user_id)
    ∙ rw (any-role_rules a t names user_id)

module _ (casl : Casl) (user_id : ℕ) (names : List String) where
  registered : List Rule
  registered =
      can (workingplan ∷ []) event
      ∷ can_if (accept_gdpr ∷ []) user (has_id user_id)
      ∷ role_rules names user_id

  registered-fits :
      (a : Action) (t : Target)
      → casl.can registered a t ≡ (
          base_fits a t user_id
          || any (λ n. any (fits a t) (role_ability_builders n user_id)) names)
  unfolding registered
  registered-fits a t =
      can-grants casl a t registered (role_rules-only_grants names user_id)
      ∙ rw (any-role_rules a t names user_id) (ground arith)

  guard_skipped :
      (a : Action) (t : Target)
      → a ≢ impersonate
      → casl.can (impersonate_guard names user_id registered) a t ≡ casl.can registered a t
  unfolding impersonate_guard
  guard_skipped a t ne = elim (Bool-cases (is_admin names)) [
    | inl admin ↦
        rw admin (rw (casl.can-append, casl.can-append, casl.can-append) (rw (ne_impersonate a ne)))
    | inr plain ↦ rw plain (rw casl.can-append (rw (ne_impersonate a ne)))
  ]

  -- The three disjuncts of the guard, read for the row of a user.
  guard_impersonate :
      (target_names : List String) (u : User)
      → casl.can
          (impersonate_guard names user_id registered)
          impersonate
          (to_user_subject u target_names)
        ≡ (is_admin names
            && (not (is_true u.deleted)
                && (not (user_id == u.id)
                    && (not (is_admin target_names)
                        && casl.can registered impersonate (to_user_subject u target_names)))))
  unfolding impersonate_guard to_user_subject
  guard_impersonate target_names u = elim (Bool-cases (is_admin names)) [
    | inl admin ↦ rw admin (rw (casl.can-append, casl.can-append, casl.can-append) (ground arith))
    | inr plain ↦ rw plain (rw casl.can-append)
  ]

-- For every action but impersonation, what a signed-in user may do is what one of the roles held
-- allows, or one of the two rules for all: the order of the roles is of no account, and a further
-- role takes nothing away.
pub can-build_ability :
    (casl : Casl) (user_id : ℕ) (names : List String) (a : Action) (t : Target)
    → a ≢ impersonate
    → casl.can (build_ability (some user_id) names) a t
      ≡ (base_fits a t user_id || any (λ n. any (fits a t) (role_ability_builders n user_id)) names)
unfolding build_ability
can-build_ability casl user_id names a t ne =
    unfold registered in
    guard_skipped casl user_id names a t ne ∙ registered-fits casl user_id names a t

-- The rules of the role Admin grant the impersonation of any user, before the guard.
admin-fits :
    (target_names : List String) (user_id : ℕ) (u : User)
    → any
        (fits impersonate (to_user_subject u target_names))
        (role_ability_builders "Admin" user_id)
      ≡ true
unfolding to_user_subject role_ability_builders
admin-fits target_names user_id u = refl

pub any_of_role :
    (p : String → Bool) (name : String) (names : List String)
    → has_role names name ≡ true
    → p name ≡ true
    → any p names ≡ true
any_of_role p name [] h k = cc
any_of_role p name (n ∷ names) h k = ground (arith, eq_iff n name, any_of_role p name names)

-- A signed-in user may impersonate another exactly when the user holds the role Admin and the other
-- is not deleted, is not the user, and does not hold Admin, whatever further roles either holds and
-- in whatever order.
pub can-impersonate :
    (casl : Casl) (user_id : ℕ) (names target_names : List String) (u : User)
    → casl.can (build_ability (some user_id) names) impersonate (to_user_subject u target_names) ≡ (
        is_admin names
        && (not (is_true u.deleted) && (not (user_id == u.id) && not (is_admin target_names))))
unfolding build_ability
can-impersonate casl user_id names target_names u =
    let target = to_user_subject u target_names in
    unfold registered in
    guard_impersonate casl user_id names target_names u ∙ elim (Bool-cases (is_admin names)) [
      | inl admin ↦
          let granted =
            any_of_role (λ n. any (fits impersonate target) (role_ability_builders n user_id))
              "Admin" names (unfold is_admin in admin) (admin-fits target_names user_id u) in
          rw (admin, registered-fits casl user_id names impersonate target, granted) (ground arith)
      | inr plain ↦ rw plain
    ]
