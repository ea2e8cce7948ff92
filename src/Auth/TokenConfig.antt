-- ===== src/Auth/TokenConfig.antt =====
-- The lifetimes of tokens (api/src/auth/tokenConfig.ts), in seconds, with what the environment
-- gives as numbers.
use intern_logenhelfer_de.Base.{ℕ, zero, suc, Option, none, some}

-- `none` is a variable that is missing, empty or no finite number.
unfoldable pub parse_ttl_seconds : Option ℕ → ℕ → ℕ
parse_ttl_seconds none fallback = fallback
parse_ttl_seconds (some zero) fallback = fallback
parse_ttl_seconds (some (suc n)) fallback = suc n

pub record TokenConfig : Type 0 where
  pub jwt_access_ttl_seconds : ℕ
  pub jwt_refresh_ttl_seconds : ℕ
  pub reset_password_token_ttl_seconds : ℕ

unfoldable pub token_config : Option ℕ → Option ℕ → Option ℕ → TokenConfig
unfolding parse_ttl_seconds
token_config access refresh reset = record {
  jwt_access_ttl_seconds = parse_ttl_seconds access 900;
  jwt_refresh_ttl_seconds = parse_ttl_seconds refresh 604_800;
  reset_password_token_ttl_seconds = parse_ttl_seconds reset 3600;
}
