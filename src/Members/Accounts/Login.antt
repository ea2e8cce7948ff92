-- ===== src/Members/Accounts/Login.antt =====
-- The login of a member who has been removed.
use intern_logenhelfer_de.Base.{
  ℕ, ◌≡◌, refl, ap, ◌∙◌, String, Bool, true, false, ◌||◌, some, List, [], ◌∷◌, ◌==◌, nat_eq,
  nat_beq_iff, string_eq, eq_refl, find, update_where, arith, All, HasKeys, find_unique, Bool-cases,
  inl, inr,
}
use intern_logenhelfer_de.External.{External}
use intern_logenhelfer_de.Store.{Store, User}
use intern_logenhelfer_de.Auth.Lockout.{is_locked_out}
use intern_logenhelfer_de.Auth.RefreshToken.{revoke_all_families_for_user}
use intern_logenhelfer_de.Auth.TokenConfig.{TokenConfig}
use intern_logenhelfer_de.Authz.Rules.{Casl}
use intern_logenhelfer_de.Members.Accounts.{
  Caller, offboarded, offboard, delete_member, find_member_by_uuid, may_destroy,
}
use intern_logenhelfer_de.Members.Accounts.Removal.{delete_member_lem}
use intern_logenhelfer_de.Members.Roles.{Role, RoleTable, validate_roles_on_update}
use intern_logenhelfer_de.Mfa.Status.{non_empty}
use intern_logenhelfer_de.Routes.Grant.{Draws}
use intern_logenhelfer_de.Routes.Session.{
  LoginRequest, login_as, find_email, password_valid, invalid_credentials,
}
use intern_logenhelfer_de.Routes.Session.Login.{login_as_lem, is_session, is_pending, unchallenged}

-- The address that a removed member has afterwards.
abbrev pub stamped_email : User → ℕ → String
stamped_email target now = (offboarded target now target).email

stamped_found :
    (target : User) (now : ℕ) (p : User → Bool) (rows : List User)
    → All (λ u. u.email == stamped_email target now ≡ false) rows
    → All (λ u. u.id ≡ target.id → u ≡ target) rows
    → find p rows ≡ some target
    → find
        (λ u. u.email == stamped_email target now)
        (update_where (λ u. u.id == target.id) (offboarded target now) rows)
      ≡ some (offboarded target now target)
stamped_found target now p [] free own found = cc
stamped_found target now p (u ∷ rows) (free_u, free) (own_u, own) found =
    elim (Bool-cases (u.id == target.id)) [
      | inl hit ↦
          let same = own_u ((nat_beq_iff u.id target.id).0 hit) in
          rw (hit, eq_refl (stamped_email target now))
            (ap (λ (v : User). some (offboarded target now v)) same)
      | inr miss ↦ elim (Bool-cases (p u)) [
        | inr other ↦
            rw (miss, free_u) (stamped_found target now p rows free own (rw other at found))
        | inl fits ↦
            let same : u ≡ target = ground arith in
            let hit = (nat_beq_iff u.id target.id).1 (ap (λ (v : User). v.id) same) in
            absurd (ground (arith, hit, miss))
      ]
    ]

module _ (x : External) (ttl : TokenConfig) (casl : Casl) (roles : RoleTable)
    (role_rows : List Role) (show_admins : Bool) where
  -- A member who has been removed is refused under the old address, with any password. Under the new
  -- address, the old one behind a mark and the second of the removal, the old password is accepted as
  -- ever: it leads to a session or to the second factor.
  pub delete_member-login_as :
      (caller : Caller) (uuid : String) (now : ℕ) (s : Store) (target : User)
      → find_member_by_uuid uuid s ≡ some target
      → All (λ u. u.email ≡ target.email → u.id ≡ target.id) s.users
      → All (λ u. u.email == stamped_email target now ≡ false) s.users
      → HasKeys (λ u. u.id) s.users
      → may_destroy x ttl casl roles role_rows show_admins caller target ≡ true
      → non_empty (validate_roles_on_update role_rows target.id roles) ≡ false
      → let s' = (delete_member x ttl casl roles role_rows show_admins caller uuid now s).1 in
        ((r : LoginRequest) (password : String) (draws : Draws) (t : ℕ)
          → (login_as x ttl r target.email password draws t s').0 ≡ invalid_credentials)
        × ((r : LoginRequest) (password : String) (draws : Draws) (t : ℕ)
            → is_locked_out (stamped_email target now) t s' ≡ false
            → password_valid x (some target) password ≡ true
            → let reply = (login_as x ttl r (stamped_email target now) password draws t s').0 in
              (is_session reply || is_pending reply) ≡ true)
  unfolding delete_member offboard find_member_by_uuid revoke_all_families_for_user
  delete_member-login_as caller uuid now s target found own free keyed right good =
      let s' = (delete_member x ttl casl roles role_rows show_admins caller uuid now s).1 in
      let (reply, marked, gone, ended) =
        (delete_member_lem x ttl casl roles role_rows show_admins caller uuid now s target found
            own).2
          right good in
      let there : find_email (stamped_email target now) s' ≡ some (offboarded target now target) =
        rw (found, delete_member, right, good)
          (stamped_found target now _ s.users free
            (find_unique (λ u. u.id) _ s.users target keyed found) found) in
      (
        (λ r password draws t.
            (login_as_lem x ttl r target.email password draws t s').2
              (elim (Bool-cases (is_locked_out target.email t s')) [
                | inl locked ↦ rw locked refl
                | inr unlocked ↦ rw (unlocked, gone) refl
              ])),
        (λ r password draws t unlocked valid.
            let (session, pending, _) =
              login_as_lem x ttl r (stamped_email target now) password draws t s' in
            elim (Bool-cases (unchallenged x r (some (offboarded target now target)) t s')) [
              | inl passes ↦
                  let begun : is_session
                        (login_as x ttl r (stamped_email target now) password draws t s').0
                      ≡ true =
                    session ∙ rw (unlocked, there, valid, passes) refl in
                  rw begun refl
              | inr stops ↦
                  let begun : is_pending
                        (login_as x ttl r (stamped_email target now) password draws t s').0
                      ≡ true =
                    pending ∙ rw (unlocked, there, valid, stops) refl in
                  elim (Bool-cases (
                    is_session
                      (login_as x ttl r (stamped_email target now) password draws t s').0)) [
                        | inl a ↦ rw a refl
                        | inr b ↦ rw (b, begun) refl
                      ]
            ]),
      )
