-- ===== src/Auth/Lockout/Twin.antt =====
-- The second factors' lockout is the login lockout on another table.
use intern_logenhelfer_de.Base.{ℕ, ◌≡◌, refl, String}
use intern_logenhelfer_de.Store.{Store}
use intern_logenhelfer_de.Auth.Lockout.{
  is_locked_out, record_failed_login, reset_login_lockout, is_mfa_locked_out,
  record_failed_mfa_attempt, reset_mfa_lockout, lock_duration_ms, mfa_lock_duration_ms,
}

-- The store with the two tables changed for one another.
abbrev pub swap_tables : Store → Store
swap_tables s = record s { login_lockouts = s.mfa_lockouts; mfa_lockouts = s.login_lockouts }

-- Check, failure and reset do to `mfa_lockouts` what their twins do to `login_lockouts`, and touch
-- nothing else: on the store with the tables exchanged they are the same three operations.
pub mfa_lockout_twin :
    (key : String) (now : ℕ) (s : Store)
    → (is_mfa_locked_out key now s ≡ is_locked_out key now (swap_tables s))
      × ((record_failed_mfa_attempt key now s).0 ≡ (record_failed_login key now (swap_tables s)).0)
      × ((record_failed_mfa_attempt key now s).1
          ≡ swap_tables (record_failed_login key now (swap_tables s)).1)
      × (reset_mfa_lockout key now s ≡ swap_tables (reset_login_lockout key now (swap_tables s)))
unfolding is_locked_out is_mfa_locked_out record_failed_login record_failed_mfa_attempt
    reset_login_lockout reset_mfa_lockout lock_duration_ms mfa_lock_duration_ms
mfa_lockout_twin key now s = (refl, refl, refl, refl)
