-- ===== src/Mailing/Digest/Delivery.antt =====
-- Which registrations a run marks as notified, and the mail that it sends.
use intern_logenhelfer_de.Base.{
  ℕ, ◌+◌, ◌≡◌, refl, ap, sym, ◌∙◌, if◌then◌else◌, String, Bool, true, false, not, ◌&&◌, ◌||◌, List,
  [], ◌∷◌, ◌++◌, map, ◌==◌, nat_eq, select, update_where, arith, All, All-map, All-zip, Bool-cases,
  inl, inr, is_listed, HasKeys, listed_iff, update_where_congr, update_where_twice, select-select,
}
use intern_logenhelfer_de.Store.{User}
use intern_logenhelfer_de.Mailing.Digest.{
  Participant, DigestEvent, DigestStrings, DigestMail, DigestStore, CollectResult, is_pending,
  is_valid, notified, mark_notified, mark_both, collect, line_of, internal_event_line,
  external_event_line, collect_internal, collect_external, send_event_registration_digest,
  digest_recipients, digest_mail, is_empty, admin_bcc_addresses,
}
use intern_logenhelfer_de.Mailing.Digest.Groups.{group_ids_lem}
use intern_logenhelfer_de.Mailing.Digest.Lines.{has_line, has_line-append, collect-lines}

-- What becomes of a row in a run that has sent a mail, or has not.
abbrev pub done : List DigestEvent → Bool → Participant → Bool
done events sent p = is_pending p && (not (is_valid events p) || sent)

module _ (line : DigestEvent → String) (strings : DigestStrings) (events : List DigestEvent)
    (users : List User) (now : ℕ) (rows : List Participant) (keyed : HasKeys (λ p. p.id) rows) where
  stray_rows :
      All
        (λ p.
          is_listed (collect line strings events users rows).stray_ids p.id
          ≡ (is_pending p && not (is_valid events p)))
        rows
  unfolding collect
  stray_rows =
      rw (select-select (λ p. not (is_valid events p)) is_pending rows)
        (listed_iff (λ p. p.id) (λ p. is_pending p && not (is_valid events p)) rows keyed)

  valid_rows :
      All
        (λ p.
          is_listed (collect line strings events users rows).valid_ids p.id
          ≡ (is_pending p && is_valid events p))
        rows
  unfolding collect
  valid_rows =
      All-map _
        (λ p h.
          group_ids_lem events p.id (select is_pending rows) []
          ∙ ap (λ l. is_listed (map (λ q. q.id) l) p.id)
              (select-select (is_valid events) is_pending rows)
          ∙ h)
        rows (listed_iff (λ p. p.id) (λ p. is_pending p && is_valid events p) rows keyed)

  mark-stray :
      mark_notified now (collect line strings events users rows).stray_ids rows
      ≡ update_where (done events false) (notified now) rows
  unfolding mark_notified
  mark-stray =
      update_where_congr (notified now) _ _ rows
        (All-map _ (λ p h. h ∙ ground arith) rows stray_rows)

  mark-both :
      let c = collect line strings events users rows in
      mark_notified now c.valid_ids (mark_notified now c.stray_ids rows)
      ≡ update_where (done events true) (notified now) rows
  unfolding mark_notified
  mark-both =
      let c = collect line strings events users rows in
      update_where_twice (notified now) (λ p. is_listed c.valid_ids p.id)
        (λ p. is_listed c.stray_ids p.id) (λ p. refl) (λ p. refl) rows
      ∙ update_where_congr (notified now)
          (λ p. is_listed c.stray_ids p.id || is_listed c.valid_ids p.id) (done events true) rows
          (All-zip _ _ _ (λ p h k. ground (arith, h, k)) rows stray_rows valid_rows)

select-twice {ℓ} : {A : Type ℓ} (q : A → Bool) (xs : List A) → select q (select q xs) ≡ select q xs
select-twice q [] = refl
select-twice q (x ∷ xs) = ground (arith, select-twice q xs)

collect-waiting :
    (line : DigestEvent → String) (strings : DigestStrings) (events : List DigestEvent)
    (users : List User) (rows : List Participant)
    → collect line strings events users (select is_pending rows)
      ≡ collect line strings events users rows
unfolding collect
collect-waiting line strings events users rows = rw (select-twice is_pending rows) refl

has_line-mail :
    (strings : DigestStrings) (l : String) (internal external recipients : List String)
    → (has_line l internal || has_line l external) ≡ true
    → has_line l (strings.greeting ∷ "" ∷ ((internal ++ external) ++ "--" ∷ strings.footer ∷ []))
      ≡ true
has_line-mail strings l internal external recipients h = ground (
  arith,
  has_line-append l (internal ++ external) ("--" ∷ strings.footer ∷ []),
  has_line-append l internal external,
)

-- The mail has the line of each registration that waits and has an event.
abbrev pub Tells :
    DigestStrings → List User → List DigestEvent → List Participant → DigestMail → Type 0
Tells strings users events rows mail =
    All (λ p. is_valid events p ≡ true → has_line (line_of strings users p) mail.text ≡ true)
      (select is_pending rows)

module _ (strings : DigestStrings) (now : ℕ) (s : DigestStore) where
  abbrev internal_of : CollectResult
  internal_of = collect (internal_event_line strings) strings s.events s.users s.event_participants

  abbrev external_of : CollectResult
  external_of =
      collect (external_event_line strings) strings s.external_events s.users
        s.external_event_participants

  Tells-internal :
      (recipients : List String)
      → Tells strings s.users s.events s.event_participants
          (digest_mail strings internal_of external_of recipients s)
  Tells-internal recipients =
      All-map _
        (λ p h fits.
          has_line-mail strings (line_of strings s.users p) internal_of.lines external_of.lines
            recipients (ground (arith, h fits)))
        (select is_pending s.event_participants)
        (collect-lines strings s.events s.users (internal_event_line strings) s.event_participants)

  Tells-external :
      (recipients : List String)
      → Tells strings s.users s.external_events s.external_event_participants
          (digest_mail strings internal_of external_of recipients s)
  Tells-external recipients =
      All-map _
        (λ p h fits.
          has_line-mail strings (line_of strings s.users p) internal_of.lines external_of.lines
            recipients (ground (arith, h fits)))
        (select is_pending s.external_event_participants)
        (collect-lines strings s.external_events s.users (external_event_line strings)
          s.external_event_participants)

  -- The store with those registrations alone that wait.
  abbrev pub waiting_only : DigestStore
  waiting_only = record s {
    event_participants = select is_pending s.event_participants;
    external_event_participants = select is_pending s.external_event_participants;
  }

  -- The mails that are delivered after a run, by what the two tables had to say.
  abbrev mails_after : (DigestMail → Bool) → CollectResult → CollectResult → List DigestMail
  mails_after send internal external =
      let recipients = digest_recipients s.roles in
      let mail = digest_mail strings internal external recipients s in
      if internal.event_count + external.event_count == 0
      then s.delivered
      else if is_empty recipients
      then s.delivered
      else if not (send mail)
      then s.delivered
      else s.delivered ++ mail ∷ []

  delivered-mails_after :
      (send : DigestMail → Bool)
      → (send_event_registration_digest strings send now s).1.delivered
        ≡ mails_after send internal_of external_of
  unfolding send_event_registration_digest collect_internal collect_external mark_both
  delivered-mails_after send =
      let recipients = digest_recipients s.roles in
      let mail = digest_mail strings internal_of external_of recipients s in
      elim (Bool-cases (internal_of.event_count + external_of.event_count == 0)) [
        | inl nothing ↦ rw nothing refl
        | inr news ↦ elim (Bool-cases (is_empty recipients)) [
          | inl nobody ↦ rw (news, nobody) refl
          | inr named ↦ elim (Bool-cases (send mail)) [
            | inr failed ↦ rw (news, named, failed) refl
            | inl arrived ↦ rw (news, named, arrived) refl
          ]
        ]
      ]

module _ (strings : DigestStrings) (now : ℕ) (s : DigestStore) where
  send-waiting_only :
      (send : DigestMail → Bool)
      → (send_event_registration_digest strings send now (waiting_only strings now s)).1.delivered
        ≡ (send_event_registration_digest strings send now s).1.delivered
  unfolding admin_bcc_addresses
  send-waiting_only send =
      delivered-mails_after strings now (waiting_only strings now s) send
      ∙ ap
          (λ c.
            mails_after strings now s send c (external_of strings now (waiting_only strings now s)))
          (collect-waiting (internal_event_line strings) strings s.events s.users
            s.event_participants)
      ∙ ap (λ c. mails_after strings now s send (internal_of strings now s) c)
          (collect-waiting (external_event_line strings) strings s.external_events s.users
            s.external_event_participants)
      ∙ sym (delivered-mails_after strings now s send)

  run_lem :
      (send : DigestMail → Bool)
      → HasKeys (λ p. p.id) s.event_participants
      → HasKeys (λ p. p.id) s.external_event_participants
      → let (result, s') = send_event_registration_digest strings send now s in
        let sent = not (is_empty result.0) in
        (s'.event_participants
          ≡ update_where (done s.events sent) (notified now) s.event_participants)
        × (s'.external_event_participants
            ≡ update_where
                (done s.external_events sent)
                (notified now)
                s.external_event_participants)
        × (sent ≡ false → s'.delivered ≡ s.delivered)
        × (sent ≡ true
            → (mail : DigestMail) × (s'.delivered ≡ s.delivered ++ mail ∷ [])
              × Tells strings s.users s.events s.event_participants mail
              × Tells strings s.users s.external_events s.external_event_participants mail)
  unfolding send_event_registration_digest collect_internal collect_external mark_both
  run_lem send k l =
      let internal = internal_of strings now s in
      let external = external_of strings now s in
      let stray1 =
        mark-stray (internal_event_line strings) strings s.events s.users now s.event_participants
          k in
      let stray2 =
        mark-stray (external_event_line strings) strings s.external_events s.users now
          s.external_event_participants l in
      let both1 =
        mark-both (internal_event_line strings) strings s.events s.users now s.event_participants
          k in
      let both2 =
        mark-both (external_event_line strings) strings s.external_events s.users now
          s.external_event_participants l in
      let recipients = digest_recipients s.roles in
      let mail = digest_mail strings internal external recipients s in
      elim (Bool-cases (internal.event_count + external.event_count == 0)) [
        | inl nothing ↦ rw nothing (stray1, stray2, (λ h. refl), (λ h. absurd (cc)))
        | inr news ↦ elim (Bool-cases (is_empty recipients)) [
          | inl nobody ↦ rw (news, nobody) (stray1, stray2, (λ h. refl), (λ h. absurd (cc)))
          | inr named ↦ elim (Bool-cases (send mail)) [
            | inr failed ↦
                rw (news, named, failed) (stray1, stray2, (λ h. refl), (λ h. absurd (cc)))
            | inl arrived ↦
                rw (news, named, arrived)
                  (rw named (
                    both1,
                    both2,
                    (λ h. absurd (cc)),
                    (λ h. (
                      mail,
                      refl,
                      Tells-internal strings now s recipients,
                      Tells-external strings now s recipients,
                    )),
                  ))
          ]
        ]
      ]

  -- A run that names recipients has sent one mail, with a line for every registration that waited
  -- and has an event; any other run has sent none. A registration whose event is gone is marked as
  -- notified by every run, one with an event exactly by a run that has sent the mail: until then it
  -- waits for the next night. What is marked has no part in any later mail: on the registrations that
  -- wait alone, a run delivers the same.
  pub send_event_registration_digest_lem :
      (send : DigestMail → Bool)
      → HasKeys (λ p. p.id) s.event_participants
      → HasKeys (λ p. p.id) s.external_event_participants
      → let (result, s') = send_event_registration_digest strings send now s in
        let sent = not (is_empty result.0) in
        (s'.event_participants
          ≡ update_where (done s.events sent) (notified now) s.event_participants)
        × (s'.external_event_participants
            ≡ update_where
                (done s.external_events sent)
                (notified now)
                s.external_event_participants)
        × (sent ≡ false → s'.delivered ≡ s.delivered)
        × (sent ≡ true
            → (mail : DigestMail) × (s'.delivered ≡ s.delivered ++ mail ∷ [])
              × Tells strings s.users s.events s.event_participants mail
              × Tells strings s.users s.external_events s.external_event_participants mail)
        × ((send_event_registration_digest strings send now
              (waiting_only strings now s)).1.delivered
            ≡ s'.delivered)
  send_event_registration_digest_lem send k l =
      let (internal, external, silent, sent) = run_lem send k l in
      (internal, external, silent, sent, send-waiting_only send)
