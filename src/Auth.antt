-- ===== src/Auth.antt =====
-- Authentication (api/src/auth).
pub mod Lockout
pub mod RefreshToken
pub mod TokenConfig
pub mod Jwt
pub mod DeviceTrust
pub mod Middleware
