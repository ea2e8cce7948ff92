-- ===== src/Mfa.antt =====
-- Second factors (api/src/lib/mfa*.ts).
pub mod Settings
pub mod Status
pub mod BackupCodes
pub mod EmailOtp
