-- ===== src/Auth/Middleware.antt =====
-- `authenticateApiUser` (api/src/auth/middleware.ts).
pub mod Scopes
use intern_logenhelfer_de.Base.{
  ℕ, String, Bool, not, ◌&&◌, ◌||◌, Option, none, some, List, ◌==◌, string_eq, is_some,
  if◌then◌else◌,
}
use text.Mathlib.Text.{starts_with, find?}
use Prim.Native.String.{slice, len}
use intern_logenhelfer_de.External.{External, AccessTokenPayload}
use intern_logenhelfer_de.Store.{Store, User}
use intern_logenhelfer_de.Auth.Jwt.{verify_access_token}
use intern_logenhelfer_de.Auth.RefreshToken.{find_user}
use intern_logenhelfer_de.Authz.Rules.{Rule}
use intern_logenhelfer_de.Authz.Ability.{build_ability, load_user_role_names}
use intern_logenhelfer_de.Mfa.Status.{is_mfa_setup_required_for}

-- The part of a request that the guard reads.
pub record Request : Type 0 where
  pub authorization : Option String
  pub method : String
  pub original_url : String

abbrev pub bearer_prefix : String
bearer_prefix = "Bearer "

-- `header.slice(BEARER_PREFIX.length)` of a header with the prefix.
abbrev pub bearer : Option String → Option String
bearer none = none
bearer (some header) =
    if starts_with header bearer_prefix
    then some (slice header (len bearer_prefix) (len header))
    else none

-- `req.originalUrl.split('?')[0]`
abbrev pub url_path : String → String
url_path url = elim (find? url "?") [ none ↦ url | some i ↦ slice url 0 i ]

-- What the guard leads to: 401, 403, or the handler with the user, the ability, the impersonator.
pub data Guarded : Type 0 where
  unauthorized mfa_setup_required : Guarded
  passed : User → List Rule → Option ℕ → Guarded

-- `req.method === 'GET' && urlPath === '/api/v1/me'`
abbrev pub is_me_read : Request → Bool
is_me_read r = r.method == "GET" && url_path r.original_url == "/api/v1/me"

abbrev pub is_open_during_setup : Request → Bool
is_open_during_setup r = starts_with (url_path r.original_url) "/api/v1/mfa/" || is_me_read r

module _ (x : External) (user_roles : List (Option ℕ × Option ℕ))
    (roles : List (ℕ × Option String)) where
  -- The tail of the guard, for the user of a token.
  unfoldable pub admit : Request → AccessTokenPayload → User → ℕ → Store → Guarded
  admit r payload u now s =
      if not (is_some payload.act) && is_mfa_setup_required_for u.id now s
      then if is_open_during_setup r
        then passed u (build_ability (some u.id) (load_user_role_names u.id user_roles roles))
            payload.act
        else mfa_setup_required
      else passed u (build_ability (some u.id) (load_user_role_names u.id user_roles roles))
          payload.act

  unfoldable pub authenticate_api_user : Request → ℕ → Store → Guarded
  unfolding admit
  authenticate_api_user r now s = elim (bearer r.authorization) [
    | none ↦ unauthorized
    | some token ↦ elim (verify_access_token x token now) [
      | none ↦ unauthorized
      | some payload ↦
          if payload.mfa_pending then unauthorized else elim (find_user payload.sub s) [
            | none ↦ unauthorized
            | some u ↦ admit r payload u now s
          ]
    ]
  ]
