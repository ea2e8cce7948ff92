-- ===== src/Members.antt =====
-- Members (api/src/routes/members.ts, api/src/lib/userMobile.ts, api/src/lib/adminAccount.ts).
pub mod Mobile
pub mod AdminAccount
pub mod Roles
pub mod Access
pub mod Accounts
