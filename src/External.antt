-- ===== src/External.antt =====
-- What the program takes from packages and from the runtime: hashing (node:crypto, bcryptjs), signed
-- tokens (jsonwebtoken), one-time codes (otplib), passkeys (@simplewebauthn/server) and the Unicode
-- case and space tables of ECMAScript. Laws are what their documentation says.
use intern_logenhelfer_de.Base.{ℕ, ◌≡◌, String, Bool, true, Option, none, some, ltb, if◌then◌else◌}

-- `AccessTokenPayload` (api/src/auth/jwt.ts). `exp` is in seconds.
pub record AccessTokenPayload : Type 0 where
  pub sub : ℕ
  pub iat : ℕ
  pub exp : ℕ
  pub act : Option ℕ
  pub mfa_pending : Bool

-- What verifying a passkey's answer comes to: the library throws, or says no, or says yes with the
-- new counter.
pub data Verification : Type 0 where
  thrown refused : Verification
  verified : ℕ → Verification

-- What verifying a new passkey comes to: a yes names its id, its public key and its counter.
pub data Registration : Type 0 where
  registration_thrown registration_refused : Registration
  registered : String → String → ℕ → Registration

pub record External : Type 0 where
  -- SHA-256, in hexadecimal
  pub digest : String → String
  -- `bcrypt.compare(password, hash)` and `bcrypt.hash(password)` with the salt that it draws
  pub compare : String → String → Bool
  pub hash : String → String → String
  pub compare-hash : (salt password : String) → compare password (hash salt password) ≡ true
  -- `jwt.sign` and `jwt.verify` with this process's secret and HS256 alone; the clock in seconds
  pub sign : AccessTokenPayload → String
  pub verify : ℕ → String → Option AccessTokenPayload
  -- `encryptSecret`, with the vector that it draws, and `decryptSecret`: `none` where it throws
  pub encrypt : String → String → String
  pub decrypt : String → Option String
  -- `authenticator.verify`: the clock in milliseconds, the secret, the code; `none` where it throws
  pub totp : ℕ → String → String → Option Bool
  -- `authenticator.keyuri`: the secret, the email
  pub otpauth_uri : String → String → String
  -- the answer, the challenge expected, the credential's id, its public key and its counter
  pub verify_authentication : String → String → String → String → ℕ → Verification
  -- the answer to a registration and the challenge expected
  pub verify_registration : String → String → Registration
  -- `JSON.parse` of the decoded client data: `none` where it throws, else its `challenge`, if any
  pub challenge_of : String → Option (Option String)
  pub lower : String → String
  pub trim : String → String
  -- `normalize("NFKD")`
  pub nfkd : String → String

-- A token that this process signed verifies until it expires.
abbrev pub IsVerified : External → ℕ → AccessTokenPayload → Type 0
IsVerified x now p = x.verify now (x.sign p) ≡ (if ltb now p.exp then some p else none)
