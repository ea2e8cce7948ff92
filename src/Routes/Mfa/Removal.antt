-- ===== src/Routes/Mfa/Removal.antt =====
-- The removal of a factor, and the guard against the removal of the last one.
use intern_logenhelfer_de.Base.{
  ℕ, ◌≡◌, ◌⊎◌, inl, inr, refl, String, string_eq, Bool, true, false, not, ◌&&◌, ok, err, Bool-cases,
  none, List, [], ◌∷◌, find, select, is_some, arith, ◌==◌, nat_eq, if◌then◌else◌,
}
use intern_logenhelfer_de.External.{External}
use intern_logenhelfer_de.Store.{Store, User}
use intern_logenhelfer_de.Mfa.Status.{
  MfaMethod, totp, email, passkey, get_user_mfa_methods, is_mfa_setup_required_for, totp_verified,
  email_verified, passkey_of, non_empty, push_if, mode_mandatory, grace_over,
  compute_grace_period_ends_at,
}
use intern_logenhelfer_de.Routes.Mfa.{
  remove_method, delete_method, verify_existing_mfa_proof, with_proof, Attempt, Proof, removes_totp,
  has_totp_factor, has_email_factor, would_be_last_method_and_mandatory_past_grace, delete_totp,
  delete_email, method_text, plain, empty, last_method, get_mfa_settings,
}
use intern_logenhelfer_de.Store.{TotpCredential, EmailCredential}

no_totp :
    (user_id : ℕ) (rows : List TotpCredential)
    → find (totp_verified user_id) (select (λ c. not (c.user_id == user_id)) rows) ≡ none
no_totp user_id [] = refl
no_totp user_id (c ∷ rows) = ground (arith, no_totp user_id rows)

no_email :
    (user_id : ℕ) (rows : List EmailCredential)
    → find (email_verified user_id) (select (λ c. not (c.user_id == user_id)) rows) ≡ none
no_email user_id [] = refl
no_email user_id (c ∷ rows) = ground (arith, no_email user_id rows)

-- The three flags of `getUserMfaMethods`.
abbrev methods_of : Bool → Bool → Bool → List MfaMethod
methods_of t e p = push_if p passkey (push_if e email (push_if t totp []))

without_totp :
    (t e p : Bool)
    → non_empty (select (λ n. not (method_text n == "totp")) (methods_of t e p))
      ≡ non_empty (methods_of false e p)
without_totp false false false = refl
without_totp false false true = refl
without_totp false true false = refl
without_totp false true true = refl
without_totp true false false = refl
without_totp true false true = refl
without_totp true true false = refl
without_totp true true true = refl

without_email :
    (t e p : Bool)
    → non_empty (select (λ n. not (method_text n == "email")) (methods_of t e p))
      ≡ non_empty (methods_of t false p)
without_email false false false = refl
without_email false false true = refl
without_email false true false = refl
without_email false true true = refl
without_email true false false = refl
without_email true false true = refl
without_email true true false = refl
without_email true true true = refl

swap_guards :
    (a b c : Bool)
    → (if a then false else if not b then false else c)
      ≡ (if not b then false else if a then false else c)
swap_guards true true c = refl
swap_guards true false c = refl
swap_guards false true c = refl
swap_guards false false c = refl

-- What the guard of a removal answers is whether a factor must be set up after it.
pub last-delete_totp :
    (user_id now : ℕ) (s : Store)
    → would_be_last_method_and_mandatory_past_grace user_id "totp" true now s
      ≡ is_mfa_setup_required_for user_id now (delete_totp user_id s)
unfolding would_be_last_method_and_mandatory_past_grace is_mfa_setup_required_for delete_totp
    get_user_mfa_methods
last-delete_totp user_id now s =
    rw
      (
        no_totp user_id s.totp_credentials,
        without_totp (is_some (find (totp_verified user_id) s.totp_credentials))
            (is_some (find (email_verified user_id) s.email_credentials))
            (is_some (find (passkey_of user_id) s.passkey_credentials)),
      )
      (swap_guards
        (non_empty (
          methods_of false (is_some (find (email_verified user_id) s.email_credentials))
            (is_some (find (passkey_of user_id) s.passkey_credentials))))
        (mode_mandatory (get_mfa_settings s.config).mode)
        (grace_over (compute_grace_period_ends_at (get_mfa_settings s.config)) now))

pub last-delete_email :
    (user_id now : ℕ) (s : Store)
    → would_be_last_method_and_mandatory_past_grace user_id "email" true now s
      ≡ is_mfa_setup_required_for user_id now (delete_email user_id s)
unfolding would_be_last_method_and_mandatory_past_grace is_mfa_setup_required_for delete_email
    get_user_mfa_methods
last-delete_email user_id now s =
    rw
      (
        no_email user_id s.email_credentials,
        without_email (is_some (find (totp_verified user_id) s.totp_credentials))
            (is_some (find (email_verified user_id) s.email_credentials))
            (is_some (find (passkey_of user_id) s.passkey_credentials)),
      )
      (swap_guards
        (non_empty (
          methods_of (is_some (find (totp_verified user_id) s.totp_credentials)) false
            (is_some (find (passkey_of user_id) s.passkey_credentials))))
        (mode_mandatory (get_mfa_settings s.config).mode)
        (grace_over (compute_grace_period_ends_at (get_mfa_settings s.config)) now))

-- The types that the contract of the API lets through.
abbrev pub IsRemovable : String → Type 0
IsRemovable type = (type ≡ "totp") ⊎ (type ≡ "email")

abbrev pub has_factor : ℕ → String → Store → Bool
has_factor user_id type s =
    if removes_totp type then has_totp_factor user_id s else has_email_factor user_id s

abbrev pub without_factor : ℕ → String → Store → Store
without_factor user_id type s =
    if removes_totp type then delete_totp user_id s else delete_email user_id s

remove_method_lem :
    (user_id now : ℕ) (type : String) (s : Store)
    → IsRemovable type
    → remove_method user_id type now s ≡ (
        if is_mfa_setup_required_for user_id now (without_factor user_id type s)
        then (last_method, s)
        else (plain 204 empty, without_factor user_id type s))
unfolding remove_method
remove_method_lem user_id now type s (inl app) = rw (app, last-delete_totp user_id now s) refl
remove_method_lem user_id now type s (inr mail) = rw (mail, last-delete_email user_id now s) refl

abbrev pub is_proven : Attempt → Bool
is_proven (err e, s1) = false
is_proven (ok b, s1) = b

removal :
    (user_id now : ℕ) (type : String) (proof : Attempt)
    → IsRemovable type
    → let (reply, s') = with_proof proof (remove_method user_id type now) in
      let after = without_factor user_id type proof.1 in
      let stranded = is_mfa_setup_required_for user_id now after in
      ((is_proven proof && not stranded) ≡ true → (reply ≡ plain 204 empty) × (s' ≡ after))
      × ((is_proven proof && stranded) ≡ true → reply ≡ last_method)
      × ((is_proven proof && not stranded) ≡ false → s' ≡ proof.1)
removal user_id now type (err e, s1) removable =
    ((λ h. absurd (cc)), (λ h. absurd (cc)), (λ h. refl))
removal user_id now type (ok false, s1) removable =
    ((λ h. absurd (cc)), (λ h. absurd (cc)), (λ h. refl))
removal user_id now type (ok true, s1) removable =
    rw (remove_method_lem user_id now type s1 removable)
      (elim (Bool-cases (is_mfa_setup_required_for user_id now (without_factor user_id type s1))) [
        | inl stranded ↦ rw stranded ((λ h. absurd (cc)), (λ h. refl), (λ h. refl))
        | inr free ↦ rw free ((λ h. (refl, refl)), (λ h. absurd (cc)), (λ h. absurd (cc)))
      ])

-- For the types `totp` and `email`, which the contract of the API lets through: the removal goes
-- through exactly when the member has the factor, has proved one of the factors, and would not have to
-- set one up afterwards. It then takes away that factor alone; where it would strand the member, it is
-- refused as the last one. Wherever it does not go through, the tables are as the proof has left them,
-- and untouched for a factor that the member does not have.
pub delete_method_lem :
    (x : External) (user : User) (type : String) (p : Proof) (now : ℕ) (s : Store)
    → IsRemovable type
    → let (reply, s') = delete_method x user type p now s in
      let has = has_factor user.id type s in
      let proof = verify_existing_mfa_proof x user.id p now s in
      let after = without_factor user.id type proof.1 in
      let stranded = is_mfa_setup_required_for user.id now after in
      ((has && (is_proven proof && not stranded)) ≡ true → (reply ≡ plain 204 empty) × (s' ≡ after))
      × ((has && (is_proven proof && stranded)) ≡ true → reply ≡ last_method)
      × ((has && (is_proven proof && not stranded)) ≡ false → s' ≡ (if has then proof.1 else s))
unfolding delete_method
delete_method_lem x user type p now s removable = elim (Bool-cases (has_factor user.id type s)) [
  | inr missing ↦ rw missing ((λ h. absurd (cc)), (λ h. absurd (cc)), (λ h. refl))
  | inl has ↦
      rw has (removal user.id now type (verify_existing_mfa_proof x user.id p now s) removable)
]
