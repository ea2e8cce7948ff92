-- ===== src/Mailing/Queue/Handover.antt =====
-- What becomes of a mail on its way to the queue, and of the connections.
use intern_logenhelfer_de.Base.{
  ℕ, ◌+◌, ◌≡◌, ◌⊎◌, inl, inr, refl, ap, ◌∙◌, Bool, true, if◌then◌else◌, Option, none, some, List,
  [], ◌∷◌, ◌++◌, length, length-append, arith, Bool-cases, Option-cases, subst, sym,
}
use intern_logenhelfer_de.Mailing.Queue.{
  MailMessage, MailEnv, QueueState, redis_configured, is_set, get_queue, teardown, enqueue_mail,
  close_mail_queue, close_connection, AddOutcome, added, refused, unanswered, store_job, returns,
  send_mail,
}

abbrev pub open_count : Option ℕ → ℕ
open_count none = 0
open_count (some _) = 1

-- The queue has the one connection that is not closed.
pub record IsTidy (s : QueueState) : Type 0 where
  pub same : s.queue ≡ s.connection
  pub balance : length s.closed + open_count s.connection ≡ s.opened

-- The mail is a job or has been given to the mail server, once, and what went before stays. It is
-- both where the queue has stored the job and not answered.
abbrev pub IsHandedOver : MailMessage → AddOutcome → QueueState → QueueState → Type 0
IsHandedOver m outcome s s' =
    ((s'.jobs ≡ s.jobs ++ m ∷ []) × (s'.inline ≡ s.inline))
    ⊎ ((s'.jobs ≡ s.jobs) × (s'.inline ≡ s.inline ++ m ∷ []))
    ⊎ ((s'.jobs ≡ s.jobs ++ m ∷ []) × (s'.inline ≡ s.inline ++ m ∷ []) × (outcome ≡ unanswered))

get_queue-kept :
    (env : MailEnv) (s : QueueState)
    → ((get_queue env s).1.jobs ≡ s.jobs) × ((get_queue env s).1.inline ≡ s.inline)
unfolding get_queue
get_queue-kept env s = elim (Option-cases s.queue) [
  | inr (q, cached) ↦ rw cached (refl, refl)
  | inl fresh ↦ elim (Bool-cases (is_set env.deploy_name)) [
    | inr unnamed ↦ rw (fresh, unnamed) (refl, refl)
    | inl named ↦ rw (fresh, named) (refl, refl)
  ]
]

teardown-kept : (s : QueueState) → ((teardown s).jobs ≡ s.jobs) × ((teardown s).inline ≡ s.inline)
unfolding teardown
teardown-kept s = elim (Option-cases s.queue) [
  | inl idle ↦ rw idle (refl, refl)
  | inr (q, here) ↦ rw here (refl, refl)
]

sent_inline :
    (m : MailMessage) (s s1 : QueueState)
    → s1.jobs ≡ s.jobs
    → s1.inline ≡ s.inline
    → ((teardown s1).jobs ≡ s.jobs) × ((teardown s1).inline ++ m ∷ [] ≡ s.inline ++ m ∷ [])
sent_inline m s s1 jobs inline =
    let (j, i) = teardown-kept s1 in (j ∙ jobs, ap (λ ms. ms ++ m ∷ []) (i ∙ inline))

by_outcome :
    (outcome : AddOutcome) (delivered : Bool) (m : MailMessage) (s s1 : QueueState)
    → s1.jobs ≡ s.jobs
    → s1.inline ≡ s.inline
    → IsHandedOver m outcome s
        (if returns outcome
          then (true, store_job outcome m s1)
          else send_mail delivered m (teardown (store_job outcome m s1))).1
by_outcome added delivered m s s1 jobs inline = inl (ap (λ ms. ms ++ m ∷ []) jobs, inline)
by_outcome refused delivered m s s1 jobs inline = inr (inl (sent_inline m s s1 jobs inline))
by_outcome unanswered delivered m s s1 jobs inline =
    let (j, i) = teardown-kept (store_job unanswered m s1) in
    inr (inr (j ∙ ap (λ ms. ms ++ m ∷ []) jobs, ap (λ ms. ms ++ m ∷ []) (i ∙ inline), refl))

handed_over :
    (env : MailEnv) (outcome : AddOutcome) (delivered : Bool) (m : MailMessage) (s : QueueState)
    → IsHandedOver m outcome s (enqueue_mail env outcome delivered m s).1
unfolding enqueue_mail
handed_over env outcome delivered m s = elim (Bool-cases (redis_configured env)) [
  | inr direct ↦ rw direct (inr (inl (refl, refl)))
  | inl redis ↦
      let s1 = (get_queue env s).1 in
      let (jobs, inline) = get_queue-kept env s in
      elim (Bool-cases (get_queue env s).0) [
        | inr unnamed ↦ rw (redis, unnamed) (inr (inl (sent_inline m s s1 jobs inline)))
        | inl named ↦ rw (redis, named) (by_outcome outcome delivered m s s1 jobs inline)
      ]
]

close_connection-count :
    (c : Option ℕ) (closed : List ℕ)
    → length (close_connection c closed) ≡ length closed + open_count c
close_connection-count none closed = omega arith
close_connection-count (some c) closed = length-append closed (c ∷ [])

teardown-idle : (s : QueueState) → s.queue ≡ none → teardown s ≡ s
unfolding teardown
teardown-idle s idle = ground arith

teardown-IsTidy : (s : QueueState) → IsTidy s → IsTidy (teardown s)
unfolding teardown
teardown-IsTidy s t = elim (Option-cases s.queue) [
  | inl idle ↦ subst IsTidy (sym (teardown-idle s idle)) t
  | inr (q, here) ↦ rw here record {
    same = refl;
    balance = rw (close_connection-count s.connection s.closed) (let b = t.balance in omega arith);
  }
]

get_queue-cached :
    (env : MailEnv) (s : QueueState) (q : ℕ) → s.queue ≡ some q → get_queue env s ≡ (true, s)
unfolding get_queue
get_queue-cached env s q here = ground arith

get_queue-IsTidy :
    (env : MailEnv) (s : QueueState)
    → is_set env.deploy_name ≡ true
    → IsTidy s
    → IsTidy (get_queue env s).1
unfolding get_queue
get_queue-IsTidy env s named t = elim (Option-cases s.queue) [
  | inr (q, here) ↦ rw (get_queue-cached env s q here) t
  | inl fresh ↦
      let b = t.balance in
      let idle = ap open_count (sym t.same ∙ fresh) in
      rw (fresh, named) record { same = refl; balance = omega arith }
]

store_job-IsTidy :
    (outcome : AddOutcome) (m : MailMessage) (s : QueueState)
    → IsTidy s
    → IsTidy (store_job outcome m s)
store_job-IsTidy added m s t = record { same = t.same; balance = t.balance }
store_job-IsTidy refused m s t = t
store_job-IsTidy unanswered m s t = record { same = t.same; balance = t.balance }

enqueue_mail-IsTidy :
    (env : MailEnv) (outcome : AddOutcome) (delivered : Bool) (m : MailMessage) (s : QueueState)
    → is_set env.deploy_name ≡ true
    → IsTidy s
    → IsTidy (enqueue_mail env outcome delivered m s).1
unfolding enqueue_mail
enqueue_mail-IsTidy env outcome delivered m s named t =
    let s1 = (get_queue env s).1 in
    let got = get_queue-IsTidy env s named t in
    let stored = store_job-IsTidy outcome m s1 got in
    let down = teardown-IsTidy s1 got in
    let gone = teardown-IsTidy (store_job outcome m s1) stored in
    elim (Bool-cases (redis_configured env)) [
      | inr direct ↦ rw direct record { same = t.same; balance = t.balance }
      | inl redis ↦ elim (Bool-cases (get_queue env s).0) [
        | inr unnamed ↦ rw (redis, unnamed) record { same = down.same; balance = down.balance }
        | inl fine ↦ elim (Bool-cases (returns outcome)) [
          | inl answered ↦ rw (redis, fine, answered) stored
          | inr lost ↦ rw (redis, fine, lost) record { same = gone.same; balance = gone.balance }
        ]
      ]
    ]

teardown-closed : (s : QueueState) → IsTidy s → (teardown s).connection ≡ none
unfolding teardown
teardown-closed s t = elim (Option-cases s.queue) [
  | inl idle ↦ ap (λ (r : QueueState). r.connection) (teardown-idle s idle) ∙ sym t.same ∙ idle
  | inr (q, here) ↦ ground arith
]

-- Whatever Redis and the mail server do, and whether or not there is a deploy name, a mail becomes a
-- job or is given to the mail server, once, and what was there stays; it is both, once each, only
-- where the queue has stored the job without an answer. With a deploy name, if the connections that
-- are open are those that the queue holds, they are so after the call, and closing the queue then
-- leaves none open.
pub enqueue_mail_lem :
    (env : MailEnv) (outcome : AddOutcome) (delivered : Bool) (m : MailMessage) (s : QueueState)
    → let after = (enqueue_mail env outcome delivered m s).1 in
      IsHandedOver m outcome s after
      × (is_set env.deploy_name ≡ true
          → IsTidy s
          → IsTidy after
            × (length (close_mail_queue after).closed ≡ (close_mail_queue after).opened))
unfolding close_mail_queue
enqueue_mail_lem env outcome delivered m s =
    let after = (enqueue_mail env outcome delivered m s).1 in
    (
      handed_over env outcome delivered m s,
      (λ named t.
          let tidy = enqueue_mail-IsTidy env outcome delivered m s named t in
          let last = (teardown-IsTidy after tidy).balance in
          let none_open = ap open_count (teardown-closed after tidy) in (tidy, omega arith)),
    )
