-- ===== src/Routes/PasswordReset/Single.antt =====
-- What a reset of a password comes to.
use intern_logenhelfer_de.Base.{
  ℕ, ◌≡◌, refl, ap, String, Bool, true, false, not, ◌&&◌, none, some, List, [], ◌∷◌, ◌==◌, nat_eq,
  string_eq, nat_beq_iff, if◌then◌else◌, find, update_where, Bool-cases, inl, inr, All, is_some,
  All-update_where_new,
}
use intern_logenhelfer_de.External.{External}
use intern_logenhelfer_de.Http.{empty}
use intern_logenhelfer_de.Store.{Store, User, RefreshToken}
use intern_logenhelfer_de.Auth.RefreshToken.{revoke_all_families_for_user, mark_revoked}
use intern_logenhelfer_de.Authz.Ability.{is_true}
use intern_logenhelfer_de.Routes.Grant.{plain}
use intern_logenhelfer_de.Routes.PasswordReset.{
  bad_link, is_token, with_password, within_ttl, password_errors, change_password, reset_for,
}

-- The unique index on the reset token: every row with this token is that of one user.
abbrev pub IsOwn : External → String → User → Store → Type 0
IsOwn x token u s =
    All (λ v. is_token (x.digest token) v.reset_password_token ≡ true → v.id ≡ u.id) s.users

find-none : {A : Type 0} (p : A → Bool) (xs : List A) → All (λ a. p a ≡ false) xs → find p xs ≡ none
find-none p [] h = refl
find-none p (a ∷ xs) (h, hs) = rw h (find-none p xs hs)

token_gone :
    (x : External) (token hash : String) (u : User) (us : List User)
    → All (λ v. is_token (x.digest token) v.reset_password_token ≡ true → v.id ≡ u.id) us
    → All
        (λ v. is_token (x.digest token) v.reset_password_token ≡ false)
        (update_where (λ v. v.id == u.id) (with_password hash) us)
token_gone x token hash u [] h = tt
token_gone x token hash u (v ∷ us) (h, hs) = (
  elim (Bool-cases (v.id == u.id)) [
    | inl same ↦ rw same refl
    | inr other ↦ elim (Bool-cases (is_token (x.digest token) v.reset_password_token)) [
      | inl has ↦ let same = (nat_beq_iff v.id u.id).1 (h has) in cc
      | inr lacks ↦ rw other lacks
    ]
  ],
  token_gone x token hash u us hs,
)

revoked_row :
    (user_id now : ℕ) (r : RefreshToken)
    → let r' =
        if r.user_id == user_id && not (is_some r.revoked_at) then mark_revoked now r else r in
      r'.user_id ≡ user_id → is_some r'.revoked_at ≡ true
revoked_row user_id now r = elim (Bool-cases (r.user_id == user_id)) [
  | inl same ↦ elim (Bool-cases (is_some r.revoked_at)) [
    | inl dead ↦ rw (same, dead) (λ h. dead)
    | inr live ↦ rw (same, live) (λ h. refl)
  ]
  | inr foreign ↦ rw foreign (λ h. let same = (nat_beq_iff r.user_id user_id).1 h in cc)
]

-- No session of the user can be renewed.
pub sessions_ended :
    (user_id now : ℕ) (s : Store)
    → All
        (λ r. r.user_id ≡ user_id → is_some r.revoked_at ≡ true)
        (revoke_all_families_for_user user_id now s).refresh_tokens
unfolding revoke_all_families_for_user
sessions_ended user_id now s =
    All-update_where_new (λ r. r.user_id ≡ user_id → is_some r.revoked_at ≡ true)
      (λ r. r.user_id == user_id && not (is_some r.revoked_at)) (mark_revoked now)
      (revoked_row user_id now) s.refresh_tokens

password_row :
    (x : External) (user_id : ℕ) (password salt : String) (v : User)
    → let v' = if v.id == user_id then with_password (x.hash salt password) v else v in
      v'.id ≡ user_id → x.compare password v'.encrypted_password ≡ true
password_row x user_id password salt v = elim (Bool-cases (v.id == user_id)) [
  | inl same ↦ rw same (λ h. x.compare-hash salt password)
  | inr other ↦ rw other (λ h. let same = (nat_beq_iff v.id user_id).1 h in cc)
]

module _ (x : External) (ttl_seconds : ℕ) where
  reset_for-missing :
      (token password confirmation salt : String) (now : ℕ) (s : Store)
      → find (λ v. is_token (x.digest token) v.reset_password_token) s.users ≡ none
      → reset_for x ttl_seconds token password confirmation salt now s ≡ (bad_link, s)
  unfolding reset_for
  reset_for-missing token password confirmation salt now s missing = rw (missing, reset_for) refl

  reset_for-success :
      (token password salt : String) (now : ℕ) (s : Store) (u : User)
      → find (λ v. is_token (x.digest token) v.reset_password_token) s.users ≡ some u
      → is_true u.deleted ≡ false
      → within_ttl ttl_seconds now u.reset_password_sent_at ≡ true
      → password_errors password password ≡ none
      → reset_for x ttl_seconds token password password salt now s ≡ (
        plain 200 empty,
        revoke_all_families_for_user u.id now (record s {
          users = update_where (λ v. v.id == u.id) (with_password (x.hash salt password)) s.users;
        }),
      )
  unfolding reset_for change_password
  reset_for-success token password salt now s u found active early good =
      rw (found, reset_for, active, early, change_password, good) refl

-- A reset with the token that was mailed, within its time and with a good and confirmed password,
-- succeeds. It sets the password of that user's row, ends all of the user's sessions, and uses the
-- token up: whoever sends it again, at whatever time, is told that the link is invalid.
pub reset_for_once :
    (x : External) (ttl_seconds now t : ℕ) (token password salt other other_salt : String)
    (s : Store) (u : User)
    → find (λ v. is_token (x.digest token) v.reset_password_token) s.users ≡ some u
    → IsOwn x token u s
    → is_true u.deleted ≡ false
    → within_ttl ttl_seconds now u.reset_password_sent_at ≡ true
    → password_errors password password ≡ none
    → let (reply, s') = reset_for x ttl_seconds token password password salt now s in
      (reply ≡ plain 200 empty)
      × All (λ r. r.user_id ≡ u.id → is_some r.revoked_at ≡ true) s'.refresh_tokens
      × All (λ v. v.id ≡ u.id → x.compare password v.encrypted_password ≡ true) s'.users
      × ((reset_for x ttl_seconds token other other other_salt t s').0 ≡ bad_link)
unfolding revoke_all_families_for_user
reset_for_once x ttl_seconds now t token password salt other other_salt s u found own active early
      good =
    let gone =
      find-none (λ v. is_token (x.digest token) v.reset_password_token) _
        (token_gone x token (x.hash salt password) u s.users own) in
    rw (reset_for-success x ttl_seconds token password salt now s u found active early good) (
      refl,
      sessions_ended u.id now (record s {
        users = update_where (λ v. v.id == u.id) (with_password (x.hash salt password)) s.users;
      }),
      All-update_where_new (λ v. v.id ≡ u.id → x.compare password v.encrypted_password ≡ true)
          (λ v. v.id == u.id) (with_password (x.hash salt password))
          (password_row x u.id password salt) s.users,
      ap (λ r. r.0) (reset_for-missing x ttl_seconds token other other other_salt t _ gone),
    )
