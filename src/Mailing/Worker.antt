-- ===== src/Mailing/Worker.antt =====
-- The worker that sends the queued mails (api/src/lib/mailWorker.ts): its start and stop, the handler
-- of a failed attempt, and the alert. The queue's library counts the attempts and calls the handler
-- once for each failed one.
pub mod Alerts
use intern_logenhelfer_de.Base.{
  ℕ, String, Bool, true, false, not, ◌&&◌, ◌||◌, Option, none, some, List, [], ◌∷◌, ◌++◌, ◌==◌,
  string_eq, if◌then◌else◌, leb, ◌+◌, join_with,
}
use Prim.Native.String
use intern_logenhelfer_de.Mailing.Queue.{
  MailMessage, MailEnv, redis_configured, is_set, close_connection,
}

-- `Job`, as far as it is read; `message` is its `data`.
pub record Job : Type 0 where
  pub message : MailMessage
  pub attempts_made : ℕ
  pub attempts : Option ℕ

unfoldable pub made_text : (ℕ → String) → Option Job → String
made_text show none = "?"
made_text show (some job) = show job.attempts_made

unfoldable pub to_text : Option Job → String
to_text none = "unknown"
to_text (some job) = job.message.to

unfoldable pub subject_text : Option Job → String
subject_text none = "unknown"
subject_text (some job) = job.message.subject

unfoldable pub alert_mail : (ℕ → String) → String → Option Job → String → MailMessage
unfolding made_text to_text subject_text
alert_mail show email job error = record {
  to = email;
  bcc = none;
  subject = join_with "" ("Mail delivery failed after " ∷ made_text show job ∷ " attempts" ∷ []);
  text = join_with "" (
      "A queued email to \""
      ∷ to_text job
      ∷ "\" failed permanently.\n\nSubject: "
      ∷ subject_text job
      ∷ "\nError: "
      ∷ error
      ∷ []);
}

-- The mails given to the mail server; whether that throws is caught, so nothing else happens.
unfoldable pub alert_technical_contact :
    (ℕ → String) → Option String → Option Job → String → List MailMessage
unfolding alert_mail
alert_technical_contact show none job error = []
alert_technical_contact show (some email) job error =
    if email == "" then [] else alert_mail show email job error ∷ []

abbrev pub attempts_of : Job → ℕ
attempts_of job = elim job.attempts [ none ↦ 1 | some n ↦ n ]

-- The handler of `failed`.
unfoldable pub on_failed : (ℕ → String) → Option String → Option Job → String → List MailMessage
unfolding alert_technical_contact
on_failed show contact none error = []
on_failed show contact (some job) error =
    if leb (attempts_of job) job.attempts_made
    then alert_technical_contact show contact (some job) error
    else []

-- The module's two variables and the connections opened and closed.
pub record WorkerState : Type 0 where
  pub worker : Option ℕ
  pub worker_connection : Option ℕ
  pub opened : ℕ
  pub closed : List ℕ

-- Whether it returns; without a deploy name `mailQueueName` throws.
unfoldable pub start_mail_worker : MailEnv → Bool → WorkerState → Bool × WorkerState
start_mail_worker env is_test s =
    if not (redis_configured env) || is_test
    then (true, s)
    else let s1 = record s { worker_connection = some s.opened; opened = s.opened + 1 } in
      if is_set env.deploy_name
      then (true, record s1 { worker = s1.worker_connection })
      else (false, s1)

unfoldable pub stop_mail_worker : WorkerState → WorkerState
stop_mail_worker s = elim s.worker [
  | none ↦ s
  | some w ↦ record s {
    worker = none;
    worker_connection = none;
    closed = close_connection s.worker_connection s.closed;
  }
]
