-- ===== src/Mfa/Status.antt =====
-- Which second factors a user has, and whether one must be set up (api/src/lib/mfaStatus.ts).
use intern_logenhelfer_de.Base.{
  ℕ, ◌+◌, ◌*◌, ◌≡◌, refl, Bool, true, false, not, ◌&&◌, ◌||◌, Option, none, some, List, [], ◌∷◌,
  ◌++◌, map, ◌==◌, nat_eq, if◌then◌else◌, find, find-any, select, any, is_some, ltb, arith,
  Bool-cases, inl, inr, any-append, nat_beq_iff, ap,
}
use intern_logenhelfer_de.Store.{Store, TotpCredential, EmailCredential, PasskeyCredential}
use intern_logenhelfer_de.Mfa.Settings.{MfaSettings, MfaMode, optional, mandatory, get_mfa_settings}

pub data MfaMethod : Type 0 where
  totp email passkey : MfaMethod

abbrev pub totp_verified : ℕ → TotpCredential → Bool
totp_verified user_id c = c.user_id == user_id && is_some c.verified_at

abbrev pub email_verified : ℕ → EmailCredential → Bool
email_verified user_id c = c.user_id == user_id && is_some c.verified_at

abbrev pub passkey_of : ℕ → PasskeyCredential → Bool
passkey_of user_id c = c.user_id == user_id

-- `if (found) methods.push(…)`
abbrev pub push_if : Bool → MfaMethod → List MfaMethod → List MfaMethod
push_if found m methods = if found then methods ++ m ∷ [] else methods

unfoldable pub get_user_mfa_methods : ℕ → Store → List MfaMethod
get_user_mfa_methods user_id s =
    push_if (is_some (find (passkey_of user_id) s.passkey_credentials)) passkey (
      push_if (is_some (find (email_verified user_id) s.email_credentials)) email
        (push_if (is_some (find (totp_verified user_id) s.totp_credentials)) totp []))

abbrev pub non_empty {ℓ} : {A : Type ℓ} → List A → Bool
non_empty [] = false
non_empty (_ ∷ _) = true

unfoldable pub user_has_verified_mfa : ℕ → Store → Bool
unfolding get_user_mfa_methods
user_has_verified_mfa user_id s = non_empty (get_user_mfa_methods user_id s)

abbrev pub includes : List ℕ → ℕ → Bool
includes ids id = any (λ i. i == id) ids

-- The set, as the list of the user ids of all rows that the three queries find.
unfoldable pub get_users_with_verified_mfa : List ℕ → Store → List ℕ
get_users_with_verified_mfa user_ids s =
    if not (non_empty user_ids)
    then []
    else map (λ c. c.user_id)
        (select (λ c. includes user_ids c.user_id && is_some c.verified_at) s.totp_credentials)
      ++ (map (λ c. c.user_id)
            (select (λ c. includes user_ids c.user_id && is_some c.verified_at) s.email_credentials)
          ++ map (λ c. c.user_id) (select (λ c. includes user_ids c.user_id) s.passkey_credentials))

unfoldable pub compute_grace_period_ends_at : MfaSettings → Option ℕ
compute_grace_period_ends_at m = elim m.grace_period_started_at [
  | none ↦ none
  | some start ↦ some (start + m.grace_period_days * 86_400_000)
]

-- `!endsAt || endsAt.getTime() < Date.now()`
abbrev pub grace_over : Option ℕ → ℕ → Bool
grace_over none now = true
grace_over (some t) now = ltb t now

abbrev pub mode_mandatory : MfaMode → Bool
mode_mandatory optional = false
mode_mandatory mandatory = true

unfoldable pub is_mfa_setup_required_for : ℕ → ℕ → Store → Bool
unfolding get_user_mfa_methods get_mfa_settings compute_grace_period_ends_at
is_mfa_setup_required_for user_id now s =
    let m = get_mfa_settings s.config in
    if not (mode_mandatory m.mode)
    then false
    else if non_empty (get_user_mfa_methods user_id s)
    then false
    else grace_over (compute_grace_period_ends_at m) now

-- A user counts as protected exactly when a verified one-time code, a verified email or a passkey
-- is stored for the user.
user_has_verified_mfa_lem :
    (user_id : ℕ) (s : Store)
    → user_has_verified_mfa user_id s ≡ (
        any (totp_verified user_id) s.totp_credentials
        || (any (email_verified user_id) s.email_credentials
            || any (passkey_of user_id) s.passkey_credentials))
unfolding user_has_verified_mfa
user_has_verified_mfa_lem user_id s = ground (
  arith,
  find-any (totp_verified user_id) s.totp_credentials,
  find-any (email_verified user_id) s.email_credentials,
  find-any (passkey_of user_id) s.passkey_credentials,
)

module _ {ℓ} {A : Type ℓ} (user : A → ℕ) (ok : A → Bool) (user_ids : List ℕ) where
  includes-batch :
      (id : ℕ) (rows : List A)
      → includes (map user (select (λ c. includes user_ids (user c) && ok c) rows)) id
        ≡ (includes user_ids id && any (λ c. user c == id && ok c) rows)
  includes-batch id [] = ground arith
  includes-batch id (c ∷ rows) = elim (Bool-cases (user c == id)) [
    | inl same ↦
        ground
          (arith, ap (includes user_ids) ((nat_beq_iff (user c) id).0 same), includes-batch id rows)
    | inr other ↦ ground (arith, includes-batch id rows)
  ]

includes-rows {ℓ} :
    {A : Type ℓ} (user : A → ℕ) (user_ids : List ℕ) (id : ℕ) (rows : List A)
    → includes (map user (select (λ c. includes user_ids (user c)) rows)) id
      ≡ (includes user_ids id && any (λ c. user c == id) rows)
includes-rows user user_ids id [] = ground arith
includes-rows user user_ids id (c ∷ rows) = elim (Bool-cases (user c == id)) [
  | inl same ↦ ground (
    arith,
    ap (includes user_ids) ((nat_beq_iff (user c) id).0 same),
    includes-rows user user_ids id rows,
  )
  | inr other ↦ ground (arith, includes-rows user user_ids id rows)
]

join_cases :
    {p q r : Bool} (a x y z : Bool)
    → p ≡ (a && x)
    → q ≡ (a && y)
    → r ≡ (a && z)
    → (p || (q || r)) ≡ (a && (x || (y || z)))
join_cases a x y z e f g = ground arith

-- The batch query agrees with the query for one user: an id is in the set exactly when it was asked
-- for and its user has a verified second factor.
pub get_users_with_verified_mfa_lem :
    (user_ids : List ℕ) (id : ℕ) (s : Store)
    → includes (get_users_with_verified_mfa user_ids s) id
      ≡ (includes user_ids id && user_has_verified_mfa id s)
unfolding get_users_with_verified_mfa
get_users_with_verified_mfa_lem [] id s = refl
get_users_with_verified_mfa_lem (u ∷ user_ids) id s =
    let ids = u ∷ user_ids in
    let totps =
      includes-batch (λ c. c.user_id) (λ c. is_some c.verified_at) ids id s.totp_credentials in
    let emails =
      includes-batch (λ c. c.user_id) (λ c. is_some c.verified_at) ids id s.email_credentials in
    let passkeys = includes-rows (λ c. c.user_id) ids id s.passkey_credentials in
    rw (user_has_verified_mfa_lem, any-append, any-append)
      (join_cases (includes ids id) (any (totp_verified id) s.totp_credentials)
        (any (email_verified id) s.email_credentials) (any (passkey_of id) s.passkey_credentials)
        totps emails passkeys)
