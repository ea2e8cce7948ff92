-- ===== src/Members/Accounts/Removal.antt =====
-- What the removal of a member leaves behind.
use Prim.Native.String
use text.Mathlib.TextLemmas.{length-append}
use intern_logenhelfer_de.Mfa.Status.{non_empty}
use intern_logenhelfer_de.Members.Roles.{validate_roles_on_update}
use intern_logenhelfer_de.Routes.Params.{decimal}
use intern_logenhelfer_de.Base.{
  update_where, eq_iff, ◌/◌, ℕ, ◌≡◌, ◌≢◌, refl, ap, String, Bool, true, false, none, some, List, [],
  ◌∷◌, ◌==◌, nat_eq, nat_beq_iff, string_eq, if◌then◌else◌, find, is_some, arith, All,
  All-update_where_new, Bool-cases, inl, inr,
}
use intern_logenhelfer_de.External.{External}
use intern_logenhelfer_de.Http.{empty}
use intern_logenhelfer_de.Store.{Store, User}
use intern_logenhelfer_de.Auth.RefreshToken.{revoke_all_families_for_user}
use intern_logenhelfer_de.Auth.TokenConfig.{TokenConfig}
use intern_logenhelfer_de.Authz.Rules.{Casl}
use intern_logenhelfer_de.Authz.Ability.{is_true}
use intern_logenhelfer_de.Members.Accounts.{
  Caller, forbidden, offboarded, offboard, delete_member, find_member_by_uuid, may_destroy,
}
use intern_logenhelfer_de.Members.Roles.{Role, RoleTable}
use intern_logenhelfer_de.Routes.Grant.{plain}
use intern_logenhelfer_de.Routes.PasswordReset.Single.{sessions_ended}

-- The address that a removed member leaves free.
longer :
    (stamp email : String)
    → String.◌++◌ "deleted-" (String.◌++◌ stamp (String.◌++◌ "-" email)) ≢ email
longer stamp email e =
    let whole = length-append "deleted-" (String.◌++◌ stamp (String.◌++◌ "-" email)) in
    let tail = length-append stamp (String.◌++◌ "-" email) in
    let dash = length-append "-" email in
    let same = ap String.count e in
    let eight : String.count "deleted-" ≡ 8 = refl in
    absurd (omega (arith, whole, tail, dash, same, eight))

address_free :
    (target : User) (now : ℕ) (rows : List User)
    → All (λ u. u.email ≡ target.email → u.id ≡ target.id) rows
    → find
        (λ u. u.email == target.email)
        (update_where (λ u. u.id == target.id) (offboarded target now) rows)
      ≡ none
address_free target now [] own = refl
address_free target now (u ∷ rows) (own, owns) =
    let rest = address_free target now rows owns in
    let moved = longer (decimal (now / 1000)) target.email in
    elim (Bool-cases (u.id == target.id)) [
      | inl same ↦ elim (Bool-cases ((offboarded target now u).email == target.email)) [
        | inl kept ↦ absurd (moved ((eq_iff (offboarded target now u).email target.email).0 kept))
        | inr new ↦ rw (same, new) rest
      ]
      | inr other ↦ elim (Bool-cases (u.email == target.email)) [
        | inl kept ↦
            let same = own ((eq_iff u.email target.email).0 kept) in
            let there = (nat_beq_iff u.id target.id).1 same in cc
        | inr new ↦ rw (other, new) rest
      ]
    ]

gone_row :
    (target : User) (now : ℕ) (u : User)
    → let u' = if u.id == target.id then offboarded target now u else u in
      u'.id ≡ target.id → is_true u'.deleted ≡ true
gone_row target now u = elim (Bool-cases (u.id == target.id)) [
  | inl same ↦ rw same (λ h. refl)
  | inr other ↦ rw other (λ h. let same = (nat_beq_iff u.id target.id).1 h in cc)
]

module _ (x : External) (ttl : TokenConfig) (casl : Casl) (roles : RoleTable)
    (role_rows : List Role) (show_admins : Bool) where
  -- A member is removed exactly by whoever may and where the date of the initiation is known. A
  -- removed member is marked so, has no session that can be renewed, and no account is found under
  -- the old address any more, which is free; otherwise nothing changes.
  pub delete_member_lem :
      (caller : Caller) (uuid : String) (now : ℕ) (s : Store) (target : User)
      → find_member_by_uuid uuid s ≡ some target
      → All (λ u. u.email ≡ target.email → u.id ≡ target.id) s.users
      → let (reply, s') = delete_member x ttl casl roles role_rows show_admins caller uuid now s in
        let may = may_destroy x ttl casl roles role_rows show_admins caller target in
        let errors = validate_roles_on_update role_rows target.id roles in
        (may ≡ false → (reply ≡ forbidden) × (s' ≡ s))
        × (may ≡ true → non_empty errors ≡ true → (reply.status ≡ 422) × (s' ≡ s))
        × (may ≡ true
            → non_empty errors ≡ false
            → (reply ≡ plain 204 empty)
              × All (λ u. u.id ≡ target.id → is_true u.deleted ≡ true) s'.users
              × (find (λ u. u.email == target.email) s'.users ≡ none)
              × All (λ r. r.user_id ≡ target.id → is_some r.revoked_at ≡ true) s'.refresh_tokens)
  unfolding delete_member offboard revoke_all_families_for_user
  delete_member_lem caller uuid now s target found own = (
    (λ barred. rw (found, delete_member, barred) (refl, refl)),
    (λ right wrong. rw (found, delete_member, right, wrong) (refl, refl)),
    (λ right good.
        rw (found, delete_member, right, good)
          (
            refl,
            All-update_where_new (λ u. u.id ≡ target.id → is_true u.deleted ≡ true)
                (λ u. u.id == target.id) (offboarded target now) (gone_row target now) s.users,
            address_free target now s.users own,
            sessions_ended target.id now (offboard target now s),
          )),
  )
