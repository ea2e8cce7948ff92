-- ===== src/Auth/Lockout/Throttle.antt =====
-- What the lockout promises: one failure in detail, and the rate at which passwords can be tried.
use intern_logenhelfer_de.Base.{
  ℕ, ◌+◌, ◌-◌, ◌*◌, ◌≤◌, ◌≡◌, refl, String, false, Option, none, some, List, [], ◌∷◌, arith, eq_iff,
  eq_refl, leb, ltb, ◌&&◌, ◌⊎◌, inl, inr, if◌then◌else◌, string_eq, or_else, Bool-cases, ◌≢◌,
  leb→le,
}
use intern_logenhelfer_de.Store.{Store}
use intern_logenhelfer_de.Auth.Lockout.{
  lock_duration_ms, row_count, row_until, row_of, record_failed_login, is_after, is_locked_out,
  reset_login_lockout,
}
use intern_logenhelfer_de.Auth.Lockout.Schedule.{
  lock_duration_ms_bounds, count-upsert, until-upsert, count-reset, until-reset,
}

-- The consecutive failures recorded for an email, and the end of its lock.
abbrev pub failures : String → Store → ℕ
failures email s = row_count (row_of email s.login_lockouts)

abbrev pub lock_end : String → Store → Option ℕ
lock_end email s = row_until (row_of email s.login_lockouts)

pub failures-record_failed_login :
    (email : String) (now : ℕ) (s : Store)
    → failures email (record_failed_login email now s).1 ≡ failures email s + 1
unfolding record_failed_login
failures-record_failed_login email now s = rw count-upsert (rw eq_refl)

pub lock_end-record_failed_login :
    (email : String) (now : ℕ) (s : Store)
    → lock_end email (record_failed_login email now s).1 ≡ (
        if leb 5 (failures email s + 1)
        then some (now + lock_duration_ms (failures email s + 1))
        else none)
unfolding record_failed_login
lock_end-record_failed_login email now s = rw until-upsert (rw eq_refl)

-- A failure arms a lock exactly when it is the fifth in a row or a later one, and says so. The
-- email is then locked out from now on until the lock's duration for that count is over; below the
-- threshold it is not locked out at all. The entries of other emails are not touched.
pub record_failed_login_lem :
    (email other : String) (now t : ℕ) (s : Store)
    → let (locked_out, s') = record_failed_login email now s in
      (locked_out ≡ leb 5 (failures email s + 1))
      × (is_locked_out email t s'
          ≡ (locked_out && ltb t (now + lock_duration_ms (failures email s + 1))))
      × (email ≢ other → is_locked_out other t s' ≡ is_locked_out other t s)
unfolding record_failed_login is_locked_out
record_failed_login_lem email other now t s = (
  refl,
  rw until-upsert (rw eq_refl (ground arith)),
  λ ne. rw until-upsert (ground (arith, eq_iff email other)),
)

-- A reset clears the count and the lock of its email alone, whether or not it has a row.
pub reset_login_lockout_lem :
    (email other : String) (now t : ℕ) (s : Store)
    → let s' = reset_login_lockout email now s in
      (failures email s' ≡ 0)
      × (is_locked_out email t s' ≡ false)
      × (email ≢ other → is_locked_out other t s' ≡ is_locked_out other t s)
unfolding reset_login_lockout is_locked_out
reset_login_lockout_lem email other now t s = (
  rw count-reset (rw eq_refl),
  rw until-reset (rw eq_refl),
  λ ne. rw until-reset (ground (arith, eq_iff email other)),
)

-- A login request with a wrong password: rejected unseen while locked out, else recorded.
unfoldable pub failing_login : String → ℕ → Store → Store
failing_login email now s =
    if is_locked_out email now s then s else (record_failed_login email now s).1

unfoldable pub failing_logins : String → List ℕ → Store → Store
failing_logins email [] s = s
failing_logins email (t ∷ ts) s = failing_logins email ts (failing_login email t s)

-- The requests come at these times, none before the one in front of it.
abbrev pub IsClock : ℕ → List ℕ → Type 0
IsClock t [] = Unit
IsClock t (u ∷ ts) = (t ≤ u) × IsClock u ts

abbrev pub last_of : ℕ → List ℕ → ℕ
last_of t [] = t
last_of t (u ∷ ts) = last_of u ts

-- The bound for one more failure, where the lock is over.
paced_step :
    (start t u c : ℕ) (until : Option ℕ)
    → is_after u until ≡ false
    → start ≤ t
    → t ≤ u
    → start + 30_000 * (c - 5) ≤ t
    → (c ≤ 4) ⊎ (start + 30_000 * (c - 4) ≤ or_else until 0)
    → start + 30_000 * (c + 1 - 5) ≤ u
paced_step start t u c none free st le paced armed = ground arith
paced_step start t u c (some e) free st le paced armed = ground arith

-- The bound on the end of the lock that this failure arms.
armed_step :
    (start u c : ℕ)
    → start + 30_000 * (c - 5) ≤ u
    → (c ≤ 4)
      ⊎ (start + 30_000 * (c - 4)
          ≤ or_else (if leb 5 c then some (u + lock_duration_ms c) else none) 0)
armed_step start u c paced = elim (Bool-cases (leb 5 c)) [
  | inl over ↦ rw over (inr (omega (arith, (lock_duration_ms_bounds c (leb→le 5 c over)).0)))
  | inr below ↦ inl (ground arith)
]

module _ (email : String) (start : ℕ) where
  -- After `n` recorded failures the clock stands late, and the lock ends later still.
  record IsThrottled (t : ℕ) (s : Store) : Type 0 where
    begun : start ≤ t
    paced : start + 30_000 * (failures email s - 5) ≤ t
    armed :
        (failures email s ≤ 4)
        ⊎ (start + 30_000 * (failures email s - 4) ≤ or_else (lock_end email s) 0)

  recorded-IsThrottled :
      (t u : ℕ) (s : Store)
      → is_after u (lock_end email s) ≡ false
      → t ≤ u
      → IsThrottled t s
      → IsThrottled u (record_failed_login email u s).1
  recorded-IsThrottled t u s free le h =
      let paced =
        paced_step start t u (failures email s) (lock_end email s) free h.begun le h.paced
          h.armed in
      record {
        begun = omega (arith, h.begun);
        paced = rw failures-record_failed_login paced;
        armed =
            rw (failures-record_failed_login, lock_end-record_failed_login)
              (armed_step start u (failures email s + 1) paced);
      }

  failing_login-IsThrottled :
      (t u : ℕ) (s : Store) → t ≤ u → IsThrottled t s → IsThrottled u (failing_login email u s)
  unfolding failing_login is_locked_out
  failing_login-IsThrottled t u s le h = elim (Bool-cases (is_after u (lock_end email s))) [
    | inl locked ↦
        rw locked (record {
          begun = omega (arith, h.begun);
          paced = omega (arith, h.paced);
          armed = h.armed;
        })
    | inr free ↦ rw free (recorded-IsThrottled t u s free le h)
  ]

  failing_logins-IsThrottled :
      (t : ℕ) (ts : List ℕ) (s : Store)
      → IsClock t ts
      → IsThrottled t s
      → IsThrottled (last_of t ts) (failing_logins email ts s)
  unfolding failing_logins
  failing_logins-IsThrottled t [] s c h = h
  failing_logins-IsThrottled t (u ∷ ts) s (le, c) h =
      failing_logins-IsThrottled u ts (failing_login email u s) c
        (failing_login-IsThrottled t u s le h)

-- However often and fast wrong passwords are sent for an email that had no failure before `start`,
-- at most five are checked, and one more for each 30 seconds that have passed.
pub failing_logins_bound :
    (email : String) (start : ℕ) (ts : List ℕ) (s : Store)
    → failures email s ≡ 0
    → IsClock start ts
    → 30_000 * (failures email (failing_logins email ts s) - 5) ≤ last_of start ts - start
failing_logins_bound email start ts s fresh c =
    let h = failing_logins-IsThrottled email start start ts s c (record {
      begun = omega arith;
      paced = omega (arith, fresh);
      armed = inl (omega (arith, fresh));
    }) in
    omega (arith, h.paced)
