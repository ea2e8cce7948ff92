-- ===== src/Auth/Lockout/Schedule.antt =====
-- How long a lock lasts, and what a failure and a reset do to the row of a key.
use intern_logenhelfer_de.Base.{
  ℕ, zero, suc, ◌+◌, ◌-◌, ◌*◌, ◌^◌, ◌≤◌, min, ◌≡◌, refl, String, Bool, true, false, Option, none,
  some, List, [], ◌∷◌, arith, eq_iff, leb, ◌==◌, if◌then◌else◌, string_eq,
}
use native.Mathlib.Nat.{pow-suc}
use intern_logenhelfer_de.Store.{Lockout}
use intern_logenhelfer_de.Auth.Lockout.{
  lock_duration_ms, row_count, row_until, row_of, upsert, reset,
}

pub pow_two_pos : (k : ℕ) → 1 ≤ 2 ^ k
pow_two_pos zero = omega arith
pow_two_pos (suc k) = rw pow-suc (omega (arith, pow_two_pos k))

-- A lock lasts at least 30 seconds and at most 15 minutes, whatever the count; one more failure
-- doubles the lock until the cap is met.
pub lock_duration_ms_bounds :
    (n : ℕ)
    → 5 ≤ n
    → (30_000 ≤ lock_duration_ms n)
      × (lock_duration_ms n ≤ 900_000)
      × (lock_duration_ms (n + 1) ≡ min (2 * lock_duration_ms n) 900_000)
unfolding lock_duration_ms
lock_duration_ms_bounds n h =
    let e : n + 1 - 5 ≡ suc (n - 5) = omega arith in
    let pos = pow_two_pos (n - 5) in (omega arith, omega arith, rw (e, pow-suc) (omega arith))

-- The row of a key after an upsert, read field by field.
pub count-upsert :
    (k key : String) (n : ℕ) (until : Option ℕ) (now : ℕ) (rows : List Lockout)
    → row_count (row_of k (upsert key n until now rows))
      ≡ (if key == k then n else row_count (row_of k rows))
unfolding upsert
count-upsert k key n until now [] = ground arith
count-upsert k key n until now (r ∷ rows) =
    ground
      (arith, eq_iff r.key key, eq_iff r.key k, eq_iff key k, count-upsert k key n until now rows)

pub until-upsert :
    (k key : String) (n : ℕ) (until : Option ℕ) (now : ℕ) (rows : List Lockout)
    → row_until (row_of k (upsert key n until now rows))
      ≡ (if key == k then until else row_until (row_of k rows))
unfolding upsert
until-upsert k key n until now [] = ground arith
until-upsert k key n until now (r ∷ rows) =
    ground
      (arith, eq_iff r.key key, eq_iff r.key k, eq_iff key k, until-upsert k key n until now rows)

-- The row of a key after a reset.
pub count-reset :
    (k key : String) (now : ℕ) (rows : List Lockout)
    → row_count (row_of k (reset key now rows))
      ≡ (if key == k then 0 else row_count (row_of k rows))
unfolding reset
count-reset k key now [] = ground arith
count-reset k key now (r ∷ rows) =
    ground (arith, eq_iff r.key key, eq_iff r.key k, eq_iff key k, count-reset k key now rows)

pub until-reset :
    (k key : String) (now : ℕ) (rows : List Lockout)
    → row_until (row_of k (reset key now rows))
      ≡ (if key == k then none else row_until (row_of k rows))
unfolding reset
until-reset k key now [] = ground arith
until-reset k key now (r ∷ rows) =
    ground (arith, eq_iff r.key key, eq_iff r.key k, eq_iff key k, until-reset k key now rows)

pub ruleset lockout_rows = (arith, count-upsert, until-upsert, count-reset, until-reset)
