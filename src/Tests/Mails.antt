-- ===== src/Tests/Mails.antt =====
-- Mails and slugs.
use intern_logenhelfer_de.Base.{
  ℕ, ◌≡◌, refl, Bool, true, false, none, some, [], ◌∷◌, length, string_eq, arith, update_where, ◌<◌,
}
use intern_logenhelfer_de.Helpers.Slug.{slugify, generate_unique_slug}
use intern_logenhelfer_de.Helpers.Slug.Grammar.{is_words, slugify-is_words}
use intern_logenhelfer_de.Helpers.Slug.Unique.{is_taken, candidate, generate_unique_slug_lem}
use intern_logenhelfer_de.Mailing.Queue.{
  MailMessage, MailEnv, QueueState, unanswered, enqueue_mail, close_mail_queue,
}
use intern_logenhelfer_de.Mailing.Queue.Handover.{IsTidy, enqueue_mail_lem}
use intern_logenhelfer_de.Mailing.Digest.{
  collect_internal, collect_external, collect, digest_recipients, group_by_event, DigestMail,
  DigestStrings, DigestStore, send_event_registration_digest, notified, DigestMail,
}
use intern_logenhelfer_de.Mailing.Digest.Delivery.{done, send_event_registration_digest_lem}
use intern_logenhelfer_de.Tests.Data.{packages, store}

slugify-is_words_example : is_words true (slugify packages "--Haus & Hof") ≡ true
slugify-is_words_example = slugify-is_words packages "--Haus & Hof"

generate_unique_slug_lem_example :
    (j : ℕ) × (generate_unique_slug packages 3 "haus" (is_taken ("haus" ∷ "haus-2" ∷ []))
      ≡ some (candidate (slugify packages "haus") j))
    × (is_taken ("haus" ∷ "haus-2" ∷ []) (candidate (slugify packages "haus") j) ≡ false)
    × ((k : ℕ)
        → k < j
        → is_taken ("haus" ∷ "haus-2" ∷ []) (candidate (slugify packages "haus") k) ≡ true)
generate_unique_slug_lem_example = generate_unique_slug_lem packages "haus" ("haus" ∷ "haus-2" ∷ [])

abbrev redis : MailEnv
redis = record {
  redis_protocol = some "redis";
  redis_host = some "host";
  redis_port = some "6379";
  deploy_name = some "prod";
}

abbrev idle : QueueState
idle = record { queue = none; connection = none; opened = 0; closed = []; jobs = []; inline = [] }

abbrev mail : MailMessage
mail = record { to = "a@b.de"; bcc = none; subject = "Hallo"; text = "Text" }

enqueue_mail_lem_example :
    let after = (enqueue_mail redis unanswered true mail idle).1 in
    IsTidy after × (length (close_mail_queue after).closed ≡ (close_mail_queue after).opened)
enqueue_mail_lem_example =
    (enqueue_mail_lem redis unanswered true mail idle).1 refl
      (record { same = refl; balance = refl })

abbrev strings : DigestStrings
strings = record {
  subject = "Anmeldungen";
  greeting = "Hallo";
  footer = "Ende";
  internal_line = λ title date place. title;
  external_line = λ title date place. title;
  participant_line = λ name. name;
  festive_board_suffix = " +";
  unknown_host = "?";
  unknown_location = "?";
  unknown_participant = "?";
}

abbrev digest_store : DigestStore
digest_store = record {
  event_participants =
      (record {
        id = 1;
        event_id = some 1;
        user_id = some 1;
        festive_board = some true;
        notified_at = none;
      })
      ∷ (record {
        id = 2;
        event_id = some 9;
        user_id = some 2;
        festive_board = none;
        notified_at = none;
      })
      ∷ [];
  external_event_participants = [];
  events =
      (record { id = 1; title = some "Arbeit"; date = "2026-01-01"; place = none; deleted = false })
      ∷ [];
  external_events = [];
  users = store.users;
  roles = (record { id = 3; name = some "Secretary"; email = some "s@b.de" }) ∷ [];
  user_roles = [];
  delivered = [];
}

-- The server accepts every mail.
abbrev accept : DigestMail → Bool
accept m = true

send_event_registration_digest_lem_example :
    (send_event_registration_digest strings accept 7 digest_store).1.event_participants
    ≡ update_where (done digest_store.events true) (notified 7) digest_store.event_participants
unfolding send_event_registration_digest collect_internal collect_external collect digest_recipients
    group_by_event
send_event_registration_digest_lem_example =
    (send_event_registration_digest_lem strings 7 digest_store accept
      (((λ h. omega arith), tt), (tt, tt)) tt).0
