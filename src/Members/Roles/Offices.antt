-- ===== src/Members/Roles/Offices.antt =====
-- An office has one holder.
use intern_logenhelfer_de.Base.{
  ℕ, ◌≡◌, ◌⊎◌, inl, inr, sym, ◌∙◌, Bool, true, false, not, ◌&&◌, none, some, List, [], ◌∷◌, nat_eq,
  nat_beq_iff, if◌then◌else◌, select, any, any-append, arith, Bool-cases, Option-cases,
}
use intern_logenhelfer_de.Authz.Rules.{is_number}
use intern_logenhelfer_de.Members.Roles.{
  UserRole, Role, RoleTable, holds_role, drop_role, is_other, vacate, add_role, is_office, drop_all,
  grant_role, grant_all, apply_role_ids, current_ids, submitted_ids, without,
}

-- Whether a user holds a role.
abbrev pub holds : ℕ → ℕ → List UserRole → Bool
holds user_id role_id rows = any (holds_role user_id role_id) rows

-- No two users hold it.
abbrev pub OneHolder : ℕ → List UserRole → Type 0
OneHolder role_id rows =
    (u v : ℕ) → holds u role_id rows ≡ true → holds v role_id rows ≡ true → u ≡ v

any-select :
    (p q : UserRole → Bool) (rows : List UserRole)
    → any p (select q rows) ≡ true
    → any p rows ≡ true
any-select p q [] h = cc
any-select p q (r ∷ rows) h = ground (arith, any-select p q rows)

drop_role-OneHolder :
    (user_id dropped role_id : ℕ) (rows : List UserRole)
    → OneHolder role_id rows
    → OneHolder role_id (drop_role user_id dropped rows)
unfolding drop_role
drop_role-OneHolder user_id dropped role_id rows one u v h k =
    let q : UserRole → Bool = λ r. not (holds_role user_id dropped r) in
    one u v (any-select (holds_role u role_id) q rows h)
      (any-select (holds_role v role_id) q rows k)

drop_all-OneHolder :
    (user_id : ℕ) (ids : List ℕ) (role_id : ℕ) (t : RoleTable)
    → OneHolder role_id t.rows
    → OneHolder role_id (drop_all user_id ids t).rows
drop_all-OneHolder user_id [] role_id t one = one
drop_all-OneHolder user_id (d ∷ ids) role_id t one =
    drop_all-OneHolder user_id ids role_id _ (drop_role-OneHolder user_id d role_id t.rows one)

kept_holder :
    (user_id role_id v : ℕ) (r : UserRole)
    → (is_number role_id r.role_id && is_other user_id r.user_id) ≡ false
    → holds_role v role_id r ≡ true
    → v ≡ user_id
kept_holder user_id role_id v r kept here = elim (Option-cases r.user_id) [
  | inl vacant ↦ ground arith
  | inr (holder, named) ↦ ground (arith, nat_beq_iff holder v, nat_beq_iff holder user_id)
]

-- After an office is vacated nobody but the user holds it.
vacate_lem :
    (user_id role_id v : ℕ) (rows : List UserRole)
    → holds v role_id (vacate user_id role_id rows) ≡ true
    → v ≡ user_id
unfolding vacate
vacate_lem user_id role_id v [] h = cc
vacate_lem user_id role_id v (r ∷ rows) h =
    elim (Bool-cases (is_number role_id r.role_id && is_other user_id r.user_id)) [
      | inl other ↦ vacate_lem user_id role_id v rows (ground (arith, other))
      | inr kept ↦ elim (Bool-cases (holds_role v role_id r)) [
        | inl here ↦ kept_holder user_id role_id v r kept here
        | inr absent ↦ vacate_lem user_id role_id v rows (ground (arith, kept, absent))
      ]
    ]

vacate-OneHolder :
    (user_id vacated role_id : ℕ) (rows : List UserRole)
    → OneHolder role_id rows
    → OneHolder role_id (vacate user_id vacated rows)
unfolding vacate
vacate-OneHolder user_id vacated role_id rows one u v h k =
    let q : UserRole → Bool =
      λ r. not (is_number vacated r.role_id && is_other user_id r.user_id) in
    one u v (any-select (holds_role u role_id) q rows h)
      (any-select (holds_role v role_id) q rows k)

-- Who holds a role after a row is added.
added_holder :
    (user_id granted role_id v : ℕ) (rows : List UserRole) (id : ℕ)
    → holds v role_id (add_role user_id granted none (record { rows = rows; next_id = id })).rows
      ≡ true
    → (holds v role_id rows ≡ true) ⊎ ((v ≡ user_id) × (granted ≡ role_id))
unfolding add_role
added_holder user_id granted role_id v rows id h = elim (Bool-cases (holds v role_id rows)) [
  | inl before ↦ inl before
  | inr new ↦
      let row : UserRole = record {
        id = id;
        user_id = some user_id;
        role_id = some granted;
        role_added_at = none;
      } in
      let split = sym (any-append (holds_role v role_id) rows (row ∷ [])) ∙ h in
      inr (ground (arith, split, new, nat_beq_iff user_id v, nat_beq_iff granted role_id))
]

-- Granting a role moves an office to the user.
grant_role-OneHolder :
    (roles : List Role) (user_id granted role_id : ℕ) (t : RoleTable)
    → is_office roles role_id ≡ true
    → OneHolder role_id t.rows
    → OneHolder role_id (grant_role roles user_id granted t).rows
unfolding grant_role
grant_role-OneHolder roles user_id granted role_id t office one u v h k =
    let rows = if is_office roles granted then vacate user_id granted t.rows else t.rows in
    let kept : OneHolder role_id rows = elim (Bool-cases (is_office roles granted)) [
      | inl moved ↦ rw moved (vacate-OneHolder user_id granted role_id t.rows one)
      | inr many ↦ rw many one
    ] in
    let own : (w : ℕ) → granted ≡ role_id → holds w role_id rows ≡ true → w ≡ user_id =
      λ w same held.
        let moved : is_office roles granted ≡ true = rw same office in
        vacate_lem user_id role_id w t.rows (rw (moved, same) at held) in
    elim (added_holder user_id granted role_id u rows t.next_id h) [
      | inl hu ↦ elim (added_holder user_id granted role_id v rows t.next_id k) [
        | inl hv ↦ kept u v hu hv
        | inr (ev, same) ↦ own u same hu ∙ sym ev
      ]
      | inr (eu, same) ↦ elim (added_holder user_id granted role_id v rows t.next_id k) [
        | inl hv ↦ eu ∙ sym (own v same hv)
        | inr (ev, again) ↦ eu ∙ sym ev
      ]
    ]

grant_all-OneHolder :
    (roles : List Role) (user_id : ℕ) (ids : List ℕ) (role_id : ℕ) (t : RoleTable)
    → is_office roles role_id ≡ true
    → OneHolder role_id t.rows
    → OneHolder role_id (grant_all roles user_id ids t).rows
grant_all-OneHolder roles user_id [] role_id t office one = one
grant_all-OneHolder roles user_id (g ∷ ids) role_id t office one =
    grant_all-OneHolder roles user_id ids role_id _ office
      (grant_role-OneHolder roles user_id g role_id t office one)

-- An office (a role that is not a group) that no two members hold is still held by no two of them
-- after the roles of a member are set, whichever roles are asked for.
pub apply_role_ids-OneHolder :
    (roles : List Role) (user_id : ℕ) (submitted assignable_ids : List ℕ) (role_id : ℕ)
    (t : RoleTable)
    → is_office roles role_id ≡ true
    → OneHolder role_id t.rows
    → OneHolder role_id (apply_role_ids roles user_id submitted assignable_ids t).rows
unfolding apply_role_ids
apply_role_ids-OneHolder roles user_id submitted assignable_ids role_id t office one =
    let current = current_ids user_id assignable_ids t in
    let wanted = submitted_ids submitted assignable_ids in
    grant_all-OneHolder roles user_id (without wanted current) role_id
      (drop_all user_id (without current wanted) t) office
      (drop_all-OneHolder user_id (without current wanted) role_id t one)
