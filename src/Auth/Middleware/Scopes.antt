-- ===== src/Auth/Middleware/Scopes.antt =====
-- What each kind of token opens, at the guard of the API and at that of a pending login.
use text.Mathlib.TextPositions.{starts_with-append, slice-append_right, len-append}
use text.Mathlib.TextEquality.{starts_with_iff}
use text.Mathlib.Text.{starts_with}
use Prim.Native.String
use Prim.Native.String.{slice, len}
use intern_logenhelfer_de.Base.{
  ℕ, ◌≡◌, ◌≢◌, ◌↔◌, ◌⊎◌, inl, inr, arith, ap, sym, eq_iff, Bool-cases, Option-cases, refl, ◌∙◌,
  String, Bool, true, false, not, ◌&&◌, Option, none, some, List, if◌then◌else◌, is_some,
}
use intern_logenhelfer_de.External.{External, AccessTokenPayload}
use intern_logenhelfer_de.Store.{Store, User}
use intern_logenhelfer_de.Auth.Jwt.{verify_access_token}
use intern_logenhelfer_de.Auth.Middleware.{
  Request, unauthorized, mfa_setup_required, passed, bearer, bearer_prefix, admit,
  authenticate_api_user, is_open_during_setup, is_me_read, url_path,
}
use intern_logenhelfer_de.Auth.RefreshToken.{find_user}
use intern_logenhelfer_de.Authz.Rules.{Rule}
use intern_logenhelfer_de.Authz.Ability.{build_ability, load_user_role_names}
use intern_logenhelfer_de.Mfa.Status.{is_mfa_setup_required_for}

-- The header that a client sends with a token.
abbrev pub header_of : String → Option String
header_of token = some (String.◌++◌ bearer_prefix token)

pub bearer-header_of : (token : String) → bearer (header_of token) ≡ some token
bearer-header_of token =
    rw
      (
        starts_with-append bearer_prefix token,
        len-append bearer_prefix token,
        slice-append_right bearer_prefix token,
      )
      refl

-- The guard for a header with a token.
pub authenticate-bearer :
    (x : External) (user_roles : List (Option ℕ × Option ℕ)) (roles : List (ℕ × Option String))
    (r : Request) (token : String) (now : ℕ) (s : Store) (p : AccessTokenPayload)
    → r.authorization ≡ header_of token
    → verify_access_token x token now ≡ some p
    → authenticate_api_user x user_roles roles r now s ≡ (
        if p.mfa_pending then unauthorized else elim (find_user p.sub s) [
          | none ↦ unauthorized
          | some u ↦ admit x user_roles roles r p u now s
        ])
unfolding authenticate_api_user
authenticate-bearer x user_roles roles r token now s p sent valid =
    rw (sent, bearer-header_of token, authenticate_api_user, valid) refl

-- A token that is not valid, or of a pending login, is refused.
pub authenticate-refused :
    (x : External) (user_roles : List (Option ℕ × Option ℕ)) (roles : List (ℕ × Option String))
    (r : Request) (token : String) (now : ℕ) (s : Store) (p : AccessTokenPayload) (alive : Bool)
    → r.authorization ≡ header_of token
    → verify_access_token x token now ≡ (if alive then some p else none)
    → p.mfa_pending ≡ true
    → authenticate_api_user x user_roles roles r now s ≡ unauthorized
unfolding authenticate_api_user
authenticate-refused x user_roles roles r token now s p false sent valid pending =
    rw (sent, bearer-header_of token, authenticate_api_user, valid) refl
authenticate-refused x user_roles roles r token now s p true sent valid pending =
    rw (sent, bearer-header_of token, authenticate_api_user, valid, pending) refl

bearer-some : (h : Option String) (token : String) → bearer h ≡ some token → h ≡ header_of token
bearer-some none token e = cc
bearer-some (some header) token e = elim (Bool-cases (starts_with header bearer_prefix)) [
  | inr other ↦ absurd (ground (arith, other))
  | inl starts ↦
      let (rest, whole) = (starts_with_iff header bearer_prefix).0 starts in
      let same : some rest ≡ some token =
        sym (bearer-header_of rest) ∙ ap (λ t. bearer (some t)) whole ∙ e in
      ap (λ (t : String). some t) (sym whole)
      ∙ ap (λ o. elim o [ none ↦ none | some t ↦ header_of t ]) same
]

-- The routes of the set-up, and the read of the own profile.
abbrev pub IsSetupRoute : Request → Type 0
IsSetupRoute r =
    ((rest : String) × (String.◌++◌ "/api/v1/mfa/" rest ≡ url_path r.original_url))
    ⊎ ((r.method ≡ "GET") × (url_path r.original_url ≡ "/api/v1/me"))

IsSetupRoute-iff : (r : Request) → (is_open_during_setup r ≡ true) ↔ IsSetupRoute r
IsSetupRoute-iff r = (
  (λ opens. elim (Bool-cases (starts_with (url_path r.original_url) "/api/v1/mfa/")) [
    | inl setup ↦ inl ((starts_with_iff (url_path r.original_url) "/api/v1/mfa/").0 setup)
    | inr other ↦
        let read : is_me_read r ≡ true = rw other at opens in
        inr (
          (eq_iff r.method "GET").0 (ground arith),
          (eq_iff (url_path r.original_url) "/api/v1/me").0 (ground arith),
        )
  ]),
  (λ route. elim route [
    | inl prefix ↦ rw ((starts_with_iff (url_path r.original_url) "/api/v1/mfa/").1 prefix) refl
    | inr (get, me) ↦
        let first = (eq_iff r.method "GET").1 get in
        let second = (eq_iff (url_path r.original_url) "/api/v1/me").1 me in
        ground (arith, first, second)
  ]),
)

module _ (x : External) (user_roles : List (Option ℕ × Option ℕ)) (roles : List (ℕ × Option String))
    (r : Request) (now : ℕ) (s : Store) where
  -- What lets a request through to its handler.
  abbrev pub IsAdmitted : User → List Rule → Option ℕ → Type 0
  IsAdmitted u rules act =
      (token : String) × (p : AccessTokenPayload) × (r.authorization ≡ header_of token)
      × (verify_access_token x token now ≡ some p)
      × (p.mfa_pending ≡ false)
      × (find_user p.sub s ≡ some u)
      × (act ≡ p.act)
      × (rules ≡ build_ability (some u.id) (load_user_role_names u.id user_roles roles))
      × (is_some p.act ≡ false → is_mfa_setup_required_for u.id now s ≡ true → IsSetupRoute r)

  passed-parts :
      (v u : User) (a b : List Rule) (c d : Option ℕ)
      → passed v a c ≡ passed u b d
      → (v ≡ u) × (a ≡ b) × (c ≡ d)
  passed-parts v u a b c d e = (cc, cc, cc)

  admit-passed :
      (p : AccessTokenPayload) (v u : User) (rules : List Rule) (act : Option ℕ)
      → admit x user_roles roles r p v now s ≡ passed u rules act
      → (v ≡ u)
        × (act ≡ p.act)
        × (rules ≡ build_ability (some v.id) (load_user_role_names v.id user_roles roles))
        × (is_some p.act ≡ false → is_mfa_setup_required_for v.id now s ≡ true → IsSetupRoute r)
  unfolding admit
  admit-passed p v u rules act e =
      let required = is_mfa_setup_required_for v.id now s in
      elim (Bool-cases (not (is_some p.act) && required)) [
        | inr free ↦
            let (user, ability, own) = passed-parts _ _ _ _ _ _ (rw (admit, free) at e) in
            (user, sym own, sym ability, (λ alone needed. absurd (ground (arith, free))))
        | inl held ↦ elim (Bool-cases (is_open_during_setup r)) [
          | inr shut ↦
              let stopped : mfa_setup_required ≡ passed u rules act = rw (admit, held, shut) at e in
              absurd (cc)
          | inl opens ↦
              let (user, ability, own) = passed-parts _ _ _ _ _ _ (rw (admit, held, opens) at e) in
              (user, sym own, sym ability, (λ alone needed. (IsSetupRoute-iff r).0 opens))
        ]
      ]

  admit-through :
      (p : AccessTokenPayload) (u : User)
      → (is_some p.act ≡ false → is_mfa_setup_required_for u.id now s ≡ true → IsSetupRoute r)
      → admit x user_roles roles r p u now s
        ≡ passed u (build_ability (some u.id) (load_user_role_names u.id user_roles roles)) p.act
  unfolding admit
  admit-through p u setup =
      elim (Bool-cases (not (is_some p.act) && is_mfa_setup_required_for u.id now s)) [
        | inr free ↦ rw free refl
        | inl held ↦
            let opens = (IsSetupRoute-iff r).1 (setup (ground arith) (ground arith)) in
            rw (held, opens) refl
      ]

  refused_none :
      (u : User) (rules : List Rule) (act : Option ℕ)
      → authenticate_api_user x user_roles roles r now s ≡ unauthorized
      → authenticate_api_user x user_roles roles r now s ≢ passed u rules act
  refused_none u rules act refused e =
      let both : unauthorized ≡ passed u rules act = sym refused ∙ e in cc

  -- A request reaches its handler, as this user and with this ability, exactly when: its header holds
  -- a token that is valid and not of a pending login; the user of the token exists; the ability is the
  -- one of this user's own roles; and the user need not set up a second factor, or is impersonated by
  -- an administrator, or the path begins with /api/v1/mfa/, or the request reads /api/v1/me.
  pub authenticate-passed :
      (u : User) (rules : List Rule) (act : Option ℕ)
      → (authenticate_api_user x user_roles roles r now s ≡ passed u rules act)
        ↔ IsAdmitted u rules act
  unfolding authenticate_api_user
  authenticate-passed u rules act = (
    (λ e. elim (Option-cases (bearer r.authorization)) [
      | inl missing ↦ absurd (refused_none u rules act (rw (missing, authenticate_api_user) refl) e)
      | inr (token, sent) ↦ elim (Option-cases (verify_access_token x token now)) [
        | inl invalid ↦
            absurd (refused_none u rules act (rw (sent, authenticate_api_user, invalid) refl) e)
        | inr (p, valid) ↦
            let header = bearer-some r.authorization token sent in
            let whole = authenticate-bearer x user_roles roles r token now s p header valid in
            elim (Bool-cases p.mfa_pending) [
              | inl pending ↦ absurd (refused_none u rules act (whole ∙ rw pending refl) e)
              | inr full ↦ elim (Option-cases (find_user p.sub s)) [
                | inl unknown ↦
                    absurd (refused_none u rules act (whole ∙ rw (full, unknown) refl) e)
                | inr (v, found) ↦
                    let (user, own, ability, setup) =
                      admit-passed p v u rules act (sym (whole ∙ rw (full, found) refl) ∙ e) in
                    (
                      token,
                      p,
                      header,
                      valid,
                      full,
                      found ∙ ap (λ (w : User). some w) user,
                      own,
                      ability
                          ∙ ap
                              (λ (w : User).
                                build_ability (some w.id)
                                  (load_user_role_names w.id user_roles roles))
                              user,
                      (λ alone needed.
                          setup alone (
                            ap (λ (w : User). is_mfa_setup_required_for w.id now s) user ∙ needed)),
                    )
              ]
            ]
      ]
    ]),
    (λ (token, p, sent, valid, full, found, own, ability, setup).
        authenticate-bearer x user_roles roles r token now s p sent valid
        ∙ rw (full, found, own, ability) (admit-through p u setup)),
  )
