-- ===== src/Http.antt =====
-- Errors and replies of the API (api/src/lib/errors.ts).
pub mod Mapping
use intern_logenhelfer_de.Base.{
  ℕ, String, Bool, true, false, Option, none, some, List, [], ◌==◌, if◌then◌else◌,
}
use intern_logenhelfer_de.Base.{nat_eq}

pub data ApiErrorCode : Type 0 where
  not_found bad_request unprocessable unauthorized payload_too_large : ApiErrorCode

unfoldable pub status_by_code : ApiErrorCode → ℕ
status_by_code not_found = 404
status_by_code bad_request = 400
status_by_code unprocessable = 422
status_by_code unauthorized = 401
status_by_code payload_too_large = 413

-- What a handler may throw: an `ApiError` with its detail, the two errors of refreshToken.ts, an
-- error that carries a numeric `status` and a message (express-openapi-validator), anything else.
pub data Thrown : Type 0 where
  api_error : ApiErrorCode → Option String → Thrown
  refresh_token_invalid refresh_token_reuse : Thrown
  validation : ℕ → String → Thrown
  other : Thrown

-- The public data of a session (`SessionUserPayload`).
pub record SessionUser : Type 0 where
  pub id : ℕ
  pub email : String
  pub firstname : Option String
  pub lastname : Option String
  pub subscribed_to_announcements : Bool
  pub gdpr_accepted : Option Bool

pub data Body : Type 0 where
  empty : Body
  error : String → Option String → Body
  session : String → SessionUser → Option Bool → Body
  mfa_pending : String → Body
  options : String → Body
  otpauth : String → Body
  backup_codes : List String → Body
  registration : String → String → Bool → Option Bool → Body

-- A cookie that a reply sets or clears: its name, its value, its life in milliseconds.
pub data Cookie : Type 0 where
  set_cookie : String → String → ℕ → Cookie
  clear_cookie : String → Cookie

pub record Reply : Type 0 where
  pub status : ℕ
  pub body : Body
  pub cookies : List Cookie

abbrev pub error_reply : ℕ → String → Option String → Reply
error_reply status name detail = record { status = status; body = error name detail; cookies = [] }

abbrev pub code_name : ApiErrorCode → String
code_name not_found = "not_found"
code_name bad_request = "bad_request"
code_name unprocessable = "unprocessable"
code_name unauthorized = "unauthorized"
code_name payload_too_large = "payload_too_large"

-- The branches of `apiErrorHandler` for an error that carries a status.
unfoldable pub validation_reply : ℕ → String → Reply
validation_reply status message =
    if status == 400
    then error_reply 400 "bad_request" (some message)
    else if status == 401
    then error_reply 401 "unauthorized" (some message)
    else if status == 404
    then error_reply 404 "not_found" (some message)
    else if status == 413
    then error_reply 413 "payload_too_large" (some message)
    else error_reply 500 "internal_server_error" none

unfoldable pub api_error_handler : Thrown → Reply
unfolding status_by_code validation_reply
api_error_handler (api_error code detail) =
    error_reply (status_by_code code) (code_name code) detail
api_error_handler (validation status message) = validation_reply status message
api_error_handler _ = error_reply 500 "internal_server_error" none
