-- ===== src/Mfa/Settings.antt =====
-- The settings of multi-factor authentication (api/src/lib/mfaSettings.ts).
use intern_logenhelfer_de.Base.{
  ℕ, ◌≤◌, ◌≡◌, min, String, Bool, true, false, Option, none, some, ◌==◌, string_eq, if◌then◌else◌,
  or_else, arith, refl,
}
use intern_logenhelfer_de.Store.{Config}

pub data MfaMode : Type 0 where
  optional mandatory : MfaMode

pub record MfaSettings : Type 0 where
  pub mode : MfaMode
  pub enforce_for_officers : Bool
  pub grace_period_days : ℕ
  pub trusted_device_days : ℕ
  pub grace_period_started_at : Option ℕ

abbrev pub max_trusted_device_days : ℕ
max_trusted_device_days = 90

-- `raw === 'mandatory'`
abbrev pub is_mandatory : Option String → Bool
is_mandatory none = false
is_mandatory (some mode) = mode == "mandatory"

-- `raw === true`
abbrev pub is_enforced : Option Bool → Bool
is_enforced none = false
is_enforced (some b) = b

-- Days are natural numbers here; the start is the parsed date.
unfoldable pub get_mfa_settings : Config → MfaSettings
get_mfa_settings c = record {
  mode = if c.demo_mode then optional else if is_mandatory c.mfa_mode then mandatory else optional;
  enforce_for_officers = if c.demo_mode then false else is_enforced c.mfa_enforce_for_officers;
  grace_period_days = or_else c.mfa_grace_period_days 14;
  trusted_device_days = min (or_else c.mfa_trusted_device_days 30) max_trusted_device_days;
  grace_period_started_at = c.mfa_grace_period_started_at;
}

-- A device is trusted for 90 days at most, whatever is stored; 30 without a setting. Demo mode
-- forces the optional mode and no enforcement.
pub get_mfa_settings_bounds :
    (c : Config)
    → let m = get_mfa_settings c in
      (m.trusted_device_days ≤ 90)
      × (c.mfa_trusted_device_days ≡ none → m.trusted_device_days ≡ 30)
      × (c.demo_mode ≡ true → (m.mode ≡ optional) × (m.enforce_for_officers ≡ false))
unfolding get_mfa_settings
get_mfa_settings_bounds c = (omega arith, λ h. rw h (omega arith), λ h. rw h (refl, refl))
