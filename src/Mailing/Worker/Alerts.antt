-- ===== src/Mailing/Worker/Alerts.antt =====
-- When a human hears of a mail that could not be sent.
use intern_logenhelfer_de.Base.{
  ℕ, zero, suc, ◌≡◌, refl, String, false, Option, some, List, [], ◌∷◌, ◌++◌, ◌==◌, string_eq, arith,
  ◌<◌,
}
use intern_logenhelfer_de.Mailing.Queue.{MailMessage}
use intern_logenhelfer_de.Mailing.Worker.{on_failed, alert_technical_contact, alert_mail}

-- The handler's calls when attempts number `made` up to `last` of one job fail.
abbrev pub failures :
    (ℕ → String) → Option String → MailMessage → Option ℕ → String → ℕ → List MailMessage
failures show contact m limit error zero = []
failures show contact m limit error (suc n) =
    failures show contact m limit error n
    ++ on_failed show contact (some record { message = m; attempts_made = suc n; attempts = limit })
        error

before_exhaustion :
    (show : ℕ → String) (contact : Option String) (m : MailMessage) (limit : ℕ) (error : String)
    (n : ℕ)
    → n < limit
    → failures show contact m (some limit) error n ≡ []
unfolding on_failed
before_exhaustion show contact m limit error zero below = refl
before_exhaustion show contact m limit error (suc n) below =
    let earlier = before_exhaustion show contact m limit error n (omega arith) in ground arith

-- A job with `limit` attempts, of which every one fails, raises one alert, at the last attempt, and
-- none before it: `n` failed attempts raise none while n is below the limit.
pub on_failed-once :
    (show : ℕ → String) (email : String) (m : MailMessage) (limit : ℕ) (error : String)
    → (email == "") ≡ false
    → failures show (some email) m (some (suc limit)) error (suc limit)
        ≡ alert_mail show email
            (some record { message = m; attempts_made = suc limit; attempts = some (suc limit) })
            error
          ∷ []
      × ((n : ℕ) → n < suc limit → failures show (some email) m (some (suc limit)) error n ≡ [])
unfolding on_failed alert_technical_contact
on_failed-once show email m limit error filled =
    let early = before_exhaustion show (some email) m (suc limit) error limit (omega arith) in
    (ground arith, before_exhaustion show (some email) m (suc limit) error)
