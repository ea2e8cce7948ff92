-- ===== src/Authz/Visibility.antt =====
-- The visibility rules that ability.ts keeps as plain functions (api/src/authz/ability.ts).
use intern_logenhelfer_de.Base.{
  ℕ, ◌≡◌, ◌↔◌, String, Bool, true, not, ◌||◌, List, [], ◌∷◌, ◌==◌, nat_eq, any, arith, Bool-cases,
  inl, inr, nat_beq_iff,
}
use intern_logenhelfer_de.Authz.Ability.{is_admin, has_role}

abbrev pub includes : List ℕ → ℕ → Bool
includes ids id = any (λ i. i == id) ids

unfoldable pub roles_overlap : List ℕ → List ℕ → Bool
roles_overlap user_role_ids target_role_ids = any (λ id. includes target_role_ids id) user_role_ids

unfoldable pub can_view_category : List ℕ → List ℕ → Bool
can_view_category user_role_ids category_role_ids = roles_overlap user_role_ids category_role_ids

unfoldable pub can_view_directory : List ℕ → List ℕ → Bool
can_view_directory user_role_ids directory_role_ids = roles_overlap user_role_ids directory_role_ids

unfoldable pub can_view_attached_file : List ℕ → List ℕ → Bool
can_view_attached_file user_role_ids file_role_ids = roles_overlap user_role_ids file_role_ids

unfoldable pub can_see_admin_account : List String → List String → Bool → Bool
can_see_admin_account current target show_admins =
    show_admins || (is_admin current || not (is_admin target))

unfoldable pub can_view_user_in_directory : List String → List String → Bool → Bool
can_view_user_in_directory current target show_admins =
    can_see_admin_account current target show_admins

unfoldable pub can_manage_user_as_user_admin : List String → List String → Bool → Bool
can_manage_user_as_user_admin current target show_admins =
    can_see_admin_account current target show_admins

unfoldable pub is_secretary : List String → Bool
is_secretary role_names = has_role role_names "Secretary"

unfoldable pub is_worshipful_master : List String → Bool
is_worshipful_master role_names = has_role role_names "WorshipfulMaster"

unfoldable pub is_net_delegate : List String → Bool
is_net_delegate role_names = has_role role_names "NetDelegate"

unfoldable pub is_user_admin : List String → Bool
is_user_admin role_names =
    (is_secretary role_names || is_admin role_names) || has_role role_names "UserAdmin"

unfoldable pub is_app_responsible : List String → Bool
is_app_responsible role_names =
    is_admin role_names
    || (is_secretary role_names || (is_worshipful_master role_names || is_net_delegate role_names))

any_of_includes :
    (p : ℕ → Bool) (id : ℕ) (ids : List ℕ) → includes ids id ≡ true → p id ≡ true → any p ids ≡ true
any_of_includes p id [] h k = cc
any_of_includes p id (i ∷ ids) h k = ground (arith, nat_beq_iff i id, any_of_includes p id ids)

shared_of_any :
    (user_ids target_ids : List ℕ)
    → any (includes target_ids) user_ids ≡ true
    → (id : ℕ) × (includes user_ids id ≡ true) × (includes target_ids id ≡ true)
shared_of_any [] target_ids h = cc
shared_of_any (u ∷ user_ids) target_ids h = elim (Bool-cases (includes target_ids u)) [
  | inl here ↦ (u, ground arith, here)
  | inr absent ↦
      let (id, p, q) = shared_of_any user_ids target_ids (ground arith) in (id, ground arith, q)
]

-- Overlap is a shared id: whoever holds it sees, and whoever sees holds one.
pub roles_overlap_iff :
    (user_ids target_ids : List ℕ)
    → (roles_overlap user_ids target_ids ≡ true)
      ↔ ((id : ℕ) × (includes user_ids id ≡ true) × (includes target_ids id ≡ true))
unfolding roles_overlap
roles_overlap_iff user_ids target_ids = (
  shared_of_any user_ids target_ids,
  λ (id, h, k). any_of_includes (includes target_ids) id user_ids h k,
)
