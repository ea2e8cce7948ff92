-- ===== src/Authz.antt =====
-- Authorization (api/src/authz/ability.ts).
pub mod Rules
pub mod Grants
pub mod Ability
pub mod Visibility
