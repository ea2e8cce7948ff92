-- ===== src/Members/Accounts/Factors.antt =====
-- What a reset of the second factors leaves behind.

use intern_logenhelfer_de.Base.{
  ℕ, ◌≡◌, ◌≢◌, refl, String, Bool, true, false, not, ◌&&◌, Option, none, some, List, [], ◌∷◌, ◌++◌,
  ◌==◌, nat_eq, string_eq, find, select, is_some, arith, All, Bool-cases, inl, inr,
  find-select_gone, find-select_kept,
}
use intern_logenhelfer_de.External.{External}
use intern_logenhelfer_de.Http.{empty}
use intern_logenhelfer_de.Store.{Store, User, TrustedDevice}
use intern_logenhelfer_de.Auth.DeviceTrust.{is_device_trusted, is_trusted_row}
use intern_logenhelfer_de.Auth.RefreshToken.{revoke_all_families_for_user}
use intern_logenhelfer_de.Auth.TokenConfig.{TokenConfig}
use intern_logenhelfer_de.Authz.Rules.{Casl}
use intern_logenhelfer_de.Mfa.Status.{
  user_has_verified_mfa, get_user_mfa_methods, totp_verified, email_verified, passkey_of,
}
use intern_logenhelfer_de.Members.Accounts.{
  Caller, forbidden, find_member_by_uuid, wipe_factors, mfa_reset, may_destroy,
}
use intern_logenhelfer_de.Members.Roles.{Role, RoleTable}
use intern_logenhelfer_de.Routes.Grant.{plain}
use intern_logenhelfer_de.Routes.PasswordReset.Single.{sessions_ended}

no_methods :
    (admin target : User) (hashed : String) (now : ℕ) (s : Store)
    → user_has_verified_mfa target.id (wipe_factors admin target hashed now s) ≡ false
unfolding user_has_verified_mfa wipe_factors
no_methods admin target hashed now s =
    let keep : ℕ → Bool = λ id. not (id == target.id) in
    rw
      (
        find-select_gone (totp_verified target.id) (λ c. keep c.user_id) (λ c h. ground arith)
            s.totp_credentials,
        find-select_gone (email_verified target.id) (λ c. keep c.user_id) (λ c h. ground arith)
            s.email_credentials,
        find-select_gone (passkey_of target.id) (λ c. keep c.user_id) (λ c h. ground arith)
            s.passkey_credentials,
      )
      refl

-- The factors of everyone else stay.
other_methods :
    (admin target : User) (hashed : String) (now other : ℕ) (s : Store)
    → other ≢ target.id
    → get_user_mfa_methods other (wipe_factors admin target hashed now s)
      ≡ get_user_mfa_methods other s
unfolding get_user_mfa_methods wipe_factors
other_methods admin target hashed now other s ne =
    let keep : ℕ → Bool = λ id. not (id == target.id) in
    rw
      (
        find-select_kept (totp_verified other) (λ c. keep c.user_id) (λ c h. ground arith)
            s.totp_credentials,
        find-select_kept (email_verified other) (λ c. keep c.user_id) (λ c h. ground arith)
            s.email_credentials,
        find-select_kept (passkey_of other) (λ c. keep c.user_id) (λ c h. ground arith)
            s.passkey_credentials,
      )
      refl

untrusted_row :
    (x : External) (user_id t : ℕ) (raw : String) (rows : List TrustedDevice)
    → is_trusted_row user_id t (
        find
          (λ d. d.device_token_hash == x.digest raw)
          (select (λ d. not (d.user_id == user_id)) rows))
      ≡ false
untrusted_row x user_id t raw [] = refl
untrusted_row x user_id t raw (d ∷ rows) = ground (arith, untrusted_row x user_id t raw rows)

no_device :
    (x : External) (admin target : User) (hashed : String) (now t : ℕ) (raw : Option String)
    (s : Store)
    → is_device_trusted x target.id raw t
        (revoke_all_families_for_user target.id now (wipe_factors admin target hashed now s))
      ≡ false
unfolding is_device_trusted wipe_factors revoke_all_families_for_user
no_device x admin target hashed now t none s = refl
no_device x admin target hashed now t (some raw) s = elim (Bool-cases (raw == "")) [
  | inl blank ↦ rw blank refl
  | inr given ↦ rw given (untrusted_row x target.id t raw s.trusted_devices)
]

module _ (x : External) (ttl : TokenConfig) (casl : Casl) (roles : RoleTable)
    (role_rows : List Role) (show_admins : Bool) where
  reset_effects :
      (caller : Caller) (reset_token : String) (now : ℕ) (s : Store) (target : User)
      → let s' =
          revoke_all_families_for_user target.id now
            (wipe_factors caller.user target (x.digest reset_token) now s) in
        (user_has_verified_mfa target.id s' ≡ false)
        × ((raw : Option String) (t : ℕ) → is_device_trusted x target.id raw t s' ≡ false)
        × All (λ r. r.user_id ≡ target.id → is_some r.revoked_at ≡ true) s'.refresh_tokens
        × ((other : ℕ)
            → other ≢ target.id
            → get_user_mfa_methods other s' ≡ get_user_mfa_methods other s)
        × (s'.mfa_reset_events ≡ s.mfa_reset_events ++ (caller.user.id, target.id) ∷ [])
  unfolding revoke_all_families_for_user wipe_factors user_has_verified_mfa get_user_mfa_methods
      is_device_trusted
  reset_effects caller reset_token now s target =
      let hashed = x.digest reset_token in
      (
        no_methods caller.user target hashed now s,
        (λ raw t. no_device x caller.user target hashed now t raw s),
        sessions_ended target.id now (wipe_factors caller.user target hashed now s),
        (λ other ne. other_methods caller.user target hashed now other s ne),
        refl,
      )

  -- A reset that is not refused leaves the member without a factor, a trusted device or a session
  -- that can be renewed, leaves every other member's factors alone, and is logged with who did it.
  -- It is refused, and changes nothing, in an impersonation, on oneself, and without the right.
  pub mfa_reset_lem :
      (caller : Caller) (uuid reset_token : String) (now : ℕ) (s : Store) (target : User)
      → find_member_by_uuid uuid s ≡ some target
      → let (reply, s') =
          mfa_reset x ttl casl roles role_rows show_admins caller uuid reset_token now s in
        let allowed =
          not (is_some caller.impersonator)
          && (not (target.id == caller.user.id)
              && may_destroy x ttl casl roles role_rows show_admins caller target) in
        (allowed ≡ false → (reply ≡ forbidden) × (s' ≡ s))
        × (allowed ≡ true
            → (reply ≡ plain 204 empty)
              × (user_has_verified_mfa target.id s' ≡ false)
              × ((raw : Option String) (t : ℕ) → is_device_trusted x target.id raw t s' ≡ false)
              × All (λ r. r.user_id ≡ target.id → is_some r.revoked_at ≡ true) s'.refresh_tokens
              × ((other : ℕ)
                  → other ≢ target.id
                  → get_user_mfa_methods other s' ≡ get_user_mfa_methods other s)
              × (s'.mfa_reset_events ≡ s.mfa_reset_events ++ (caller.user.id, target.id) ∷ []))
  unfolding mfa_reset
  mfa_reset_lem caller uuid reset_token now s target found =
      let own = target.id == caller.user.id in
      let may = may_destroy x ttl casl roles role_rows show_admins caller target in
      elim (Bool-cases (is_some caller.impersonator)) [
        | inl acting ↦ rw acting ((λ _. (refl, refl)), (λ h. absurd (cc)))
        | inr itself ↦ elim (Bool-cases own) [
          | inl self ↦ rw (itself, found, mfa_reset, self) ((λ _. (refl, refl)), (λ h. absurd (cc)))
          | inr someone ↦ elim (Bool-cases may) [
            | inr barred ↦
                rw (itself, found, mfa_reset, someone, barred)
                  ((λ _. (refl, refl)), (λ h. absurd (cc)))
            | inl right ↦
                rw (itself, found, mfa_reset, someone, right)
                  (
                    (λ h. absurd (cc)),
                    (λ _.
                        let e = reset_effects caller reset_token now s target in
                        (refl, e.0, e.1, e.2, e.3, e.4)),
                  )
          ]
        ]
      ]
