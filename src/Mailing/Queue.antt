-- ===== src/Mailing/Queue.antt =====
-- Handing a mail to the queue (api/src/lib/mailQueue.ts). What Redis and the mail server answer are
-- arguments; a connection is the number under which it was opened.
pub mod Handover
use intern_logenhelfer_de.Base.{
  ℕ, ◌+◌, String, Bool, true, false, not, ◌&&◌, Option, none, some, List, [], ◌∷◌, ◌++◌, ◌==◌,
  string_eq, if◌then◌else◌, Result, ok, err,
}

-- `MailMessage` (api/src/lib/mail.ts), less `cc` and `from`.
pub record MailMessage : Type 0 where
  pub to : String
  pub bcc : Option String
  pub subject : String
  pub text : String

-- The environment variables that are looked at.
pub record MailEnv : Type 0 where
  pub redis_protocol : Option String
  pub redis_host : Option String
  pub redis_port : Option String
  pub deploy_name : Option String

-- `Boolean(value)`
abbrev pub is_set : Option String → Bool
is_set none = false
is_set (some t) = not (t == "")

abbrev pub redis_configured : MailEnv → Bool
redis_configured env = is_set env.redis_protocol && (is_set env.redis_host && is_set env.redis_port)

-- The module's two variables, the connections opened and closed so far, the jobs in the queue, and
-- the mails given to the mail server.
pub record QueueState : Type 0 where
  pub queue : Option ℕ
  pub connection : Option ℕ
  pub opened : ℕ
  pub closed : List ℕ
  pub jobs : List MailMessage
  pub inline : List MailMessage

-- `buildRedisConnection`
abbrev pub open_connection : QueueState → QueueState
open_connection s = record s { connection = some s.opened; opened = s.opened + 1 }

-- Whether there is a queue, or `mailQueueName` has thrown.
unfoldable pub get_queue : MailEnv → QueueState → Bool × QueueState
get_queue env s = elim s.queue [
  | some q ↦ (true, s)
  | none ↦
      let s1 = open_connection s in
      if is_set env.deploy_name then (true, record s1 { queue = s1.connection }) else (false, s1)
]

abbrev pub close_connection : Option ℕ → List ℕ → List ℕ
close_connection none closed = closed
close_connection (some c) closed = closed ++ c ∷ []

-- `if (queue) { … teardownQueue … }`, in the catch block and in `closeMailQueue`.
unfoldable pub teardown : QueueState → QueueState
teardown s = elim s.queue [
  | none ↦ s
  | some q ↦ record s {
    queue = none;
    connection = none;
    closed = close_connection s.connection s.closed;
  }
]

-- `sendMail`: whether it returns or throws is told by the argument.
abbrev pub send_mail : Bool → MailMessage → QueueState → Bool × QueueState
send_mail delivered m s = (delivered, record s { inline = s.inline ++ m ∷ [] })

-- What comes of `Queue.add`: it returns with the job stored, throws without, or throws although Redis
-- has stored the job, as when the connection ends before the answer.
pub data AddOutcome : Type 0 where
  added refused unanswered : AddOutcome

abbrev pub store_job : AddOutcome → MailMessage → QueueState → QueueState
store_job refused m s = s
store_job _ m s = record s { jobs = s.jobs ++ m ∷ [] }

abbrev pub returns : AddOutcome → Bool
returns added = true
returns _ = false

-- `delivered` tells whether `sendMail` returns or throws. The flag says whether the call returns.
unfoldable pub enqueue_mail :
    MailEnv → AddOutcome → Bool → MailMessage → QueueState → Bool × QueueState
unfolding get_queue teardown
enqueue_mail env outcome delivered m s =
    if not (redis_configured env)
    then send_mail delivered m s
    else let (named, s1) = get_queue env s in
      if not named
      then send_mail delivered m (teardown s1)
      else if returns outcome
      then (true, store_job outcome m s1)
      else send_mail delivered m (teardown (store_job outcome m s1))

unfoldable pub close_mail_queue : QueueState → QueueState
unfolding teardown
close_mail_queue s = teardown s
