-- ===== src/Routes/Me/Self.antt =====
-- Nobody acts for a member who is impersonated, and what a change of the password does.
use intern_logenhelfer_de.Base.{
  ℕ, ◌≡◌, refl, String, Bool, true, false, not, ◌&&◌, Option, some, List, [], ◌∷◌, ◌==◌, nat_eq,
  nat_beq_iff, string_eq, if◌then◌else◌, select, update_where, is_some, arith, All,
  All-update_where_new, Bool-cases, Option-cases, inl, inr,
}
use intern_logenhelfer_de.External.{External}
use intern_logenhelfer_de.Store.{Store, User}
use intern_logenhelfer_de.Auth.RefreshToken.{revoke_all_families_for_user}
use intern_logenhelfer_de.Authz.Rules.{Casl, update_password}
use intern_logenhelfer_de.Events.Times.{BodyValue}
use intern_logenhelfer_de.Members.Accounts.{Caller}
use intern_logenhelfer_de.Routes.Params.{require_param}
use intern_logenhelfer_de.Routes.PasswordReset.{password_errors}
use intern_logenhelfer_de.Routes.PasswordReset.Single.{sessions_ended}
use intern_logenhelfer_de.Routes.Me.{
  profile, impersonating, can_on_self, with_new_password, announcement_subscription,
  gdpr_acceptance, birthday_calendar_consent, change_own_password, password, with_user,
}

-- While somebody acts as a member, no request changes the member's subscription, consents or
-- password: each is refused, whatever it says, and the tables stay as they are.
pub impersonated_changes_none :
    (x : External) (casl : Casl) (caller : Caller) (s : Store)
    → is_some caller.impersonator ≡ true
    → ((subscribed : BodyValue)
        → announcement_subscription casl caller subscribed s ≡ (impersonating, s))
      × (gdpr_acceptance casl caller s ≡ (impersonating, s))
      × ((consent : Bool) → birthday_calendar_consent casl caller consent s ≡ (impersonating, s))
      × ((current new_password confirmation : Option String) (salt : String) (now : ℕ)
          → password x casl caller current new_password confirmation salt now s
            ≡ (impersonating, s))
unfolding announcement_subscription gdpr_acceptance birthday_calendar_consent password
impersonated_changes_none x casl caller s acting = (
  (λ subscribed. rw acting refl),
  rw acting refl,
  (λ consent. rw acting refl),
  (λ current new_password confirmation salt now. rw acting refl),
)

new_password_row :
    (x : External) (user_id : ℕ) (new_password salt : String) (v : User)
    → let v' = if v.id == user_id then with_new_password (x.hash salt new_password) v else v in
      v'.id ≡ user_id → x.compare new_password v'.encrypted_password ≡ true
new_password_row x user_id new_password salt v = elim (Bool-cases (v.id == user_id)) [
  | inl same ↦ rw same (λ h. x.compare-hash salt new_password)
  | inr other ↦ rw other (λ h. let same = (nat_beq_iff v.id user_id).1 h in cc)
]

others-with_user :
    (id : ℕ) (f : User → User) (users : List User)
    → ((u : User) → (f u).id ≡ u.id)
    → select (λ u. not (u.id == id)) (update_where (λ u. u.id == id) f users)
      ≡ select (λ u. not (u.id == id)) users
others-with_user id f [] keeps = refl
others-with_user id f (u ∷ users) keeps = ground (arith, keeps u, others-with_user id f users keeps)

-- With three values that are not blank, a member changes the own password exactly with the current
-- one, a new one of at least eight UTF-16 units, and its confirmation, and not for somebody else. The new one then opens the account, no session that
-- was open can be renewed, and the other accounts are as before; otherwise nothing changes.
pub password_lem :
    (x : External) (casl : Casl) (caller : Caller) (current new_password confirmation salt : String)
    (now : ℕ) (s : Store)
    → (x.trim current == "") ≡ false
    → (x.trim new_password == "") ≡ false
    → (x.trim confirmation == "") ≡ false
    → let u = caller.user in
      let (reply, s') =
        password x casl caller (some current) (some new_password) (some confirmation) salt now s in
      let allowed =
        not (is_some caller.impersonator)
        && (can_on_self casl caller update_password
            && (not (u.encrypted_password == "")
                && x.compare current u.encrypted_password
                && not (is_some (password_errors new_password confirmation)))) in
      (allowed ≡ true
        → (reply ≡ profile 200 u)
          × All (λ v. v.id ≡ u.id → x.compare new_password v.encrypted_password ≡ true) s'.users
          × All (λ r. r.user_id ≡ u.id → is_some r.revoked_at ≡ true) s'.refresh_tokens
          × (select (λ v. not (v.id == u.id)) s'.users ≡ select (λ v. not (v.id == u.id)) s.users))
      × (allowed ≡ false → s' ≡ s)
unfolding password change_own_password require_param revoke_all_families_for_user
password_lem x casl caller current new_password confirmation salt now s c n d =
    let u = caller.user in
    elim (Bool-cases (is_some caller.impersonator)) [
      | inl acting ↦ rw acting ((λ h. absurd (cc)), (λ _. refl))
      | inr itself ↦ elim (Bool-cases (can_on_self casl caller update_password)) [
        | inr barred ↦ rw (itself, barred) ((λ h. absurd (cc)), (λ _. refl))
        | inl right ↦
            elim (Bool-cases
              (not (u.encrypted_password == "") && x.compare current u.encrypted_password)) [
                | inr wrong ↦
                    rw (itself, right, require_param, c, n, d, change_own_password, wrong)
                      ((λ h. absurd (cc)), (λ _. refl))
                | inl known ↦ elim (Option-cases (password_errors new_password confirmation)) [
                  | inr (detail, bad) ↦
                      rw (itself, right, require_param, c, n, d, change_own_password, known, bad)
                        ((λ h. absurd (cc)), (λ _. refl))
                  | inl good ↦
                      rw (itself, right, require_param, c, n, d, change_own_password, known, good)
                        (
                          (λ _. (
                            refl,
                            All-update_where_new
                                (λ v.
                                  v.id ≡ u.id → x.compare new_password v.encrypted_password ≡ true)
                                (λ v. v.id == u.id) (with_new_password (x.hash salt new_password))
                                (new_password_row x u.id new_password salt) s.users,
                            sessions_ended u.id now
                                (with_user u.id (with_new_password (x.hash salt new_password)) s),
                            others-with_user u.id (with_new_password (x.hash salt new_password))
                                s.users (λ v. refl),
                          )),
                          (λ h. absurd (cc)),
                        )
                ]
              ]
      ]
    ]
