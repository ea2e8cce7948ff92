-- ===== src/Routes.antt =====
-- The route handlers of sign-in, second factors, passwords and the own account. A handler reads the
-- clock once, as its argument `now`, and what it draws at random is an argument as well.
pub mod Params
pub mod Grant
pub mod Session
pub mod MfaChallenge
pub mod Mfa
pub mod PasswordReset
pub mod Me
