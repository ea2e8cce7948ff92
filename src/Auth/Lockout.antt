-- ===== src/Auth/Lockout.antt =====
-- Failed-login lockout per email (api/src/auth/loginLockout.ts) and its twin for second factors
-- (api/src/auth/mfaLockout.ts).
pub mod Schedule
pub mod Throttle
pub mod Twin
use intern_logenhelfer_de.Base.{
  ℕ, ◌+◌, ◌-◌, ◌*◌, ◌^◌, min, String, Bool, Option, none, some, List, [], ◌∷◌, ltb, leb, ◌==◌,
  if◌then◌else◌, find, string_eq,
}
use intern_logenhelfer_de.Store.{Store, Lockout}

abbrev pub lockout_threshold : ℕ
lockout_threshold = 5

abbrev pub base_lock_ms : ℕ
base_lock_ms = 30_000

abbrev pub max_lock_ms : ℕ
max_lock_ms = 15 * 60_000

-- Called only with a count of at least the threshold, so the subtraction does not stop at 0. The
-- float power may be infinite, and the cap is then the minimum.
unfoldable pub lock_duration_ms : ℕ → ℕ
lock_duration_ms failed_count =
    let failures_past_threshold = failed_count - lockout_threshold in
    min (base_lock_ms * 2 ^ failures_past_threshold) max_lock_ms

-- `record?.locked_until`, with `undefined` and `null` as one value.
abbrev pub row_until : Option Lockout → Option ℕ
row_until none = none
row_until (some r) = r.locked_until

-- `until !== null && until !== undefined && until.getTime() > Date.now()`
abbrev pub is_after : ℕ → Option ℕ → Bool
is_after now none = Bool.false
is_after now (some t) = ltb now t

-- `existing?.failed_count ?? 0`
abbrev pub row_count : Option Lockout → ℕ
row_count none = 0
row_count (some r) = r.failed_count

-- The `upsert` on the unique key: the row is updated if it exists, else created.
unfoldable pub upsert : String → ℕ → Option ℕ → ℕ → List Lockout → List Lockout
upsert key failed_count locked_until now [] =
    record {
      key = key;
      failed_count = failed_count;
      locked_until = locked_until;
      created_at = now;
      updated_at = now;
    }
    ∷ []
upsert key failed_count locked_until now (r ∷ rows) =
    if r.key == key
    then record r { failed_count = failed_count; locked_until = locked_until; updated_at = now }
      ∷ rows
    else r ∷ upsert key failed_count locked_until now rows

-- The `updateMany` of a reset.
unfoldable pub reset : String → ℕ → List Lockout → List Lockout
reset key now [] = []
reset key now (r ∷ rows) =
    (if r.key == key
      then record r { failed_count = 0; locked_until = none; updated_at = now }
      else r)
    ∷ reset key now rows

abbrev pub row_of : String → List Lockout → Option Lockout
row_of key rows = find (λ r. r.key == key) rows

unfoldable pub is_locked_out : String → ℕ → Store → Bool
is_locked_out email now s = is_after now (row_until (row_of email s.login_lockouts))

-- The flag is `lockedOut`: this failure has armed a lock.
unfoldable pub record_failed_login : String → ℕ → Store → Bool × Store
record_failed_login email now s =
    let failed_count = row_count (row_of email s.login_lockouts) + 1 in
    let locked_out = leb lockout_threshold failed_count in
    let locked_until = if locked_out then some (now + lock_duration_ms failed_count) else none in
    (
      locked_out,
      record s { login_lockouts = upsert email failed_count locked_until now s.login_lockouts },
    )

unfoldable pub reset_login_lockout : String → ℕ → Store → Store
reset_login_lockout email now s = record s { login_lockouts = reset email now s.login_lockouts }

unfoldable pub is_mfa_locked_out : String → ℕ → Store → Bool
is_mfa_locked_out subject_key now s = is_after now (row_until (row_of subject_key s.mfa_lockouts))

unfoldable pub mfa_lock_duration_ms : ℕ → ℕ
mfa_lock_duration_ms failed_count =
    let failures_past_threshold = failed_count - lockout_threshold in
    min (base_lock_ms * 2 ^ failures_past_threshold) max_lock_ms

unfoldable pub record_failed_mfa_attempt : String → ℕ → Store → Bool × Store
record_failed_mfa_attempt subject_key now s =
    let failed_count = row_count (row_of subject_key s.mfa_lockouts) + 1 in
    let locked_out = leb lockout_threshold failed_count in
    let locked_until =
      if locked_out then some (now + mfa_lock_duration_ms failed_count) else none in
    (
      locked_out,
      record s { mfa_lockouts = upsert subject_key failed_count locked_until now s.mfa_lockouts },
    )

unfoldable pub reset_mfa_lockout : String → ℕ → Store → Store
reset_mfa_lockout subject_key now s = record s {
  mfa_lockouts = reset subject_key now s.mfa_lockouts;
}
