-- ===== src/Routes/Session/Guessing.antt =====
-- Guessing a password through the login.
use mathlib.Core.Bool.{and-false}
use intern_logenhelfer_de.Base.{
  find, ◌==◌, string_eq, subst, ℕ, ◌+◌, ◌-◌, ◌*◌, if◌then◌else◌, arith, ◌≤◌, ◌≡◌, refl, sym, ap,
  ◌∙◌, String, false, not, ◌&&◌, List, [], ◌∷◌, Bool-cases, inl, inr, All,
}
use intern_logenhelfer_de.External.{External}
use intern_logenhelfer_de.Store.{Store, Mail}
use intern_logenhelfer_de.Auth.Lockout.{is_locked_out, record_failed_login}
use intern_logenhelfer_de.Auth.Lockout.Throttle.{
  failures, failures-record_failed_login, failing_login, failing_logins, failing_logins_bound,
  IsClock, last_of,
}
use intern_logenhelfer_de.Auth.TokenConfig.{TokenConfig}
use intern_logenhelfer_de.Routes.Grant.{Draws}
use intern_logenhelfer_de.Routes.Session.{LoginRequest, login_as, password_valid, find_email}
use intern_logenhelfer_de.Routes.Session.Login.{login_as-refused, with_mails}

-- One guess: its request, its password, what the handler draws, and its time.
pub record Guess : Type 0 where
  pub request : LoginRequest
  pub password : String
  pub draws : Draws
  pub at : ℕ

abbrev pub guess_times : List Guess → List ℕ
guess_times [] = []
guess_times (g ∷ gs) = g.at ∷ guess_times gs

module _ (x : External) (ttl : TokenConfig) (email : String) where
  unfoldable pub login_guesses : List Guess → Store → Store
  login_guesses [] s = s
  login_guesses (g ∷ gs) s =
      login_guesses gs (login_as x ttl g.request email g.password g.draws g.at s).1

  -- Every guess is wrong.
  abbrev pub IsWrong : Store → List Guess → Type 0
  IsWrong s gs = All (λ g. password_valid x (find_email email s) g.password ≡ false) gs

  failing_login-mails :
      (t : ℕ) (mails : List Mail) (s : Store)
      → failing_login email t (with_mails mails s) ≡ with_mails mails (failing_login email t s)
  unfolding failing_login is_locked_out record_failed_login
  failing_login-mails t mails s = elim (Bool-cases (is_locked_out email t s)) [
    | inl locked ↦ rw locked refl
    | inr free ↦ rw free refl
  ]

  failing_logins-mails :
      (ts : List ℕ) (mails : List Mail) (s : Store)
      → failing_logins email ts (with_mails mails s) ≡ with_mails mails (failing_logins email ts s)
  unfolding failing_logins
  failing_logins-mails [] mails s = refl
  failing_logins-mails (t ∷ ts) mails s =
      ap (failing_logins email ts) (failing_login-mails t mails s)
      ∙ failing_logins-mails ts mails (failing_login email t s)

  failing_login-users : (t : ℕ) (s : Store) → (failing_login email t s).users ≡ s.users
  unfolding failing_login is_locked_out record_failed_login
  failing_login-users t s = elim (Bool-cases (is_locked_out email t s)) [
    | inl locked ↦ rw locked refl
    | inr free ↦ rw free refl
  ]

  login_guesses-failures :
      (gs : List Guess) (s : Store)
      → IsWrong s gs
      → failures email (login_guesses gs s)
        ≡ failures email (failing_logins email (guess_times gs) s)
  unfolding login_guesses failing_logins
  login_guesses-failures [] s w = refl
  login_guesses-failures (g ∷ gs) s (wrong, w) =
      let s1 = (login_as x ttl g.request email g.password g.draws g.at s).1 in
      let refused : (not (is_locked_out email g.at s)
            && password_valid x (find_email email s) g.password)
          ≡ false =
        rw wrong (and-false (not (is_locked_out email g.at s))) in
      let changed = login_as-refused x ttl g.request email g.password g.draws g.at s refused in
      let users : s.users ≡ s1.users =
        sym (ap (λ s'. s'.users) changed ∙ failing_login-users g.at s) in
      login_guesses-failures gs s1 (
        subst
          (λ us.
            All (λ h. password_valid x (find (λ u. u.email == email) us) h.password ≡ false) gs)
          users w)
      ∙ ap (λ s'. failures email (failing_logins email (guess_times gs) s')) changed
      ∙ ap (failures email)
          (failing_logins-mails (guess_times gs) s1.mails (failing_login email g.at s))

  -- The guesses whose password is compared, the dummy comparison included: those that the handler
  -- does not turn away at the lock, in the store that the guesses before have left.
  unfoldable pub comparisons : List Guess → Store → ℕ
  comparisons [] s = 0
  comparisons (g ∷ gs) s =
      (if is_locked_out email g.at s then 0 else 1)
      + comparisons gs (login_as x ttl g.request email g.password g.draws g.at s).1

  failing_login-failures :
      (t : ℕ) (s : Store)
      → failures email (failing_login email t s)
        ≡ failures email s + (if is_locked_out email t s then 0 else 1)
  unfolding failing_login is_locked_out record_failed_login
  failing_login-failures t s =
      let one_more = failures-record_failed_login email t s in
      elim (Bool-cases (is_locked_out email t s)) [
        | inl locked ↦ rw locked (omega arith)
        | inr free ↦ rw free one_more
      ]

  guess-store :
      (g : Guess) (s : Store)
      → password_valid x (find_email email s) g.password ≡ false
      → let s1 = (login_as x ttl g.request email g.password g.draws g.at s).1 in
        (s1 ≡ with_mails s1.mails (failing_login email g.at s)) × (s1.users ≡ s.users)
  guess-store g s wrong =
      let changed =
        login_as-refused x ttl g.request email g.password g.draws g.at s
          (rw wrong (and-false (not (is_locked_out email g.at s)))) in
      (changed, ap (λ s'. s'.users) changed ∙ failing_login-users g.at s)

  comparisons-failures :
      (gs : List Guess) (s : Store)
      → IsWrong s gs
      → failures email (login_guesses gs s) ≡ failures email s + comparisons gs s
  unfolding login_guesses comparisons
  comparisons-failures [] s w = omega arith
  comparisons-failures (g ∷ gs) s (wrong, w) =
      let s1 = (login_as x ttl g.request email g.password g.draws g.at s).1 in
      let (changed, users) = guess-store g s wrong in
      let rest = comparisons-failures gs s1 (
        subst
          (λ us.
            All (λ h. password_valid x (find (λ u. u.email == email) us) h.password ≡ false) gs)
          (sym users) w) in
      let counted : failures email s1
          ≡ failures email s + (if is_locked_out email g.at s then 0 else 1) =
        ap (failures email) changed ∙ failing_login-failures g.at s in
      rest ∙ omega (arith, counted)

-- However many wrong passwords are sent to the login for an email that had no failure before
-- `start`, from however many addresses, at most five of them are compared, and one more for each 30
-- seconds that have passed. Each one compared is recorded as a failure, and no other is.
pub login_guesses_bound :
    (x : External) (ttl : TokenConfig) (email : String) (start : ℕ) (gs : List Guess) (s : Store)
    → failures email s ≡ 0
    → IsClock start (guess_times gs)
    → IsWrong x ttl email s gs
    → (30_000 * (comparisons x ttl email gs s - 5) ≤ last_of start (guess_times gs) - start)
      × (failures email (login_guesses x ttl email gs s) ≡ comparisons x ttl email gs s)
login_guesses_bound x ttl email start gs s fresh c wrong =
    let counted = comparisons-failures x ttl email gs s wrong in
    let same : failures email (login_guesses x ttl email gs s) ≡ comparisons x ttl email gs s =
      omega (arith, counted, fresh) in
    (
      rw (sym same ∙ login_guesses-failures x ttl email gs s wrong)
          (failing_logins_bound email start (guess_times gs) s fresh c),
      same,
    )
