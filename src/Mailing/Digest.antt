-- ===== src/Mailing/Digest.antt =====
-- The nightly mail about new registrations (api/src/lib/eventRegistrationDigest.ts).
pub mod Groups
pub mod Delivery
pub mod Lines
use intern_logenhelfer_de.Base.{
  ℕ, ◌+◌, String, Bool, true, false, not, ◌&&◌, ◌||◌, Option, none, some, List, [], ◌∷◌, ◌++◌, map,
  ◌==◌, nat_eq, string_eq, if◌then◌else◌, find, select, any, update_where, is_some, or_else,
  join_with, length, get, set,
}
use Prim.Native.String
use intern_logenhelfer_de.Store.{User}
use intern_logenhelfer_de.Authz.Ability.{some_values, is_true}
use intern_logenhelfer_de.Authz.Visibility.{includes}
use intern_logenhelfer_de.Authz.Rules.{is_number}

-- A row of `event_participants` or of `external_event_participants`.
pub record Participant : Type 0 where
  pub id : ℕ
  pub event_id : Option ℕ
  pub user_id : Option ℕ
  pub festive_board : Option Bool
  pub notified_at : Option ℕ

-- A row of `events` or of `external_events`; the place is `location` or `host`, the date is
-- written as in ISO 8601; `deleted` holds also for a null, which the query passes over too.
pub record DigestEvent : Type 0 where
  pub id : ℕ
  pub title : Option String
  pub date : String
  pub place : Option String
  pub deleted : Bool

-- The wording, in one language (`MailStrings['eventRegistrationDigest']`).
pub record DigestStrings : Type 0 where
  pub subject : String
  pub greeting : String
  pub footer : String
  pub internal_line : String → String → String → String
  pub external_line : String → String → String → String
  pub participant_line : String → String
  pub festive_board_suffix : String
  pub unknown_host : String
  pub unknown_location : String
  pub unknown_participant : String

pub record CollectResult : Type 0 where
  pub lines : List String
  pub event_count : ℕ
  pub valid_ids : List ℕ
  pub stray_ids : List ℕ

-- `!!p`, for a text.
abbrev pub filled : Option String → Option String
filled none = none
filled (some t) = if t == "" then none else some t

abbrev pub fullname : User → String
fullname u = join_with " " (some_values (filled u.firstname ∷ filled u.lastname ∷ []))

abbrev pub is_pending : Participant → Bool
is_pending p = not (is_some p.notified_at)

-- The event of a row, if it is there and not deleted.
abbrev pub event_of : List DigestEvent → Option ℕ → Option DigestEvent
event_of events none = none
event_of events (some id) = find (λ e. e.id == id && not e.deleted) events

abbrev pub is_valid : List DigestEvent → Participant → Bool
is_valid events p = is_some (event_of events p.event_id)

-- `byEvent`: the bucket of an event gets the row at its end, a new bucket stands last.
abbrev pub or_empty : Option (List Participant) → List Participant
or_empty none = []
or_empty (some ps) = ps

abbrev pub push : Option ℕ → Participant → List (ℕ × List Participant) → List (ℕ × List Participant)
push none p groups = groups
push (some id) p groups = set id (or_empty (get id groups) ++ p ∷ []) groups

unfoldable pub group_by_event :
    List DigestEvent → List Participant → List (ℕ × List Participant) → List (ℕ × List Participant)
group_by_event events [] groups = groups
group_by_event events (p ∷ ps) groups =
    group_by_event events ps (if is_valid events p then push p.event_id p groups else groups)

-- `usersById.get(participant.user_id)`
abbrev pub user_of : List User → Option ℕ → Option User
user_of users none = none
user_of users (some id) = find (λ u. u.id == id) users

abbrev pub name_of : DigestStrings → Option User → String
name_of strings none = strings.unknown_participant
name_of strings (some u) = fullname u

unfoldable pub line_of : DigestStrings → List User → Participant → String
line_of strings users p = strings.participant_line (
    String.◌++◌ (name_of strings (user_of users p.user_id))
      (if is_true p.festive_board then strings.festive_board_suffix else ""))

-- The lines of one event; an event that is not found has none.
abbrev pub event_lines :
    (DigestEvent → String)
    → DigestStrings
    → List User
    → Option DigestEvent
    → List Participant
    → List String
event_lines line strings users none ps = []
event_lines line strings users (some e) ps = line e ∷ (map (line_of strings users) ps ++ "" ∷ [])

unfoldable pub all_lines :
    (DigestEvent → String)
    → DigestStrings
    → List DigestEvent
    → List User
    → List (ℕ × List Participant)
    → List String
unfolding line_of
all_lines line strings events users [] = []
all_lines line strings events users ((id, ps) ∷ groups) =
    event_lines line strings users (event_of events (some id)) ps
    ++ all_lines line strings events users groups

abbrev pub group_ids : List (ℕ × List Participant) → List ℕ
group_ids [] = []
group_ids ((id, ps) ∷ groups) = map (λ p. p.id) ps ++ group_ids groups

-- What both tables have in common.
unfoldable pub collect :
    (DigestEvent → String)
    → DigestStrings
    → List DigestEvent
    → List User
    → List Participant
    → CollectResult
unfolding group_by_event all_lines
collect line strings events users participants =
    let pending = select is_pending participants in
    let groups = group_by_event events pending [] in
    record {
      lines = all_lines line strings events users groups;
      event_count = length groups;
      valid_ids = group_ids groups;
      stray_ids = map (λ p. p.id) (select (λ p. not (is_valid events p)) pending);
    }

abbrev pub internal_event_line : DigestStrings → DigestEvent → String
internal_event_line strings e =
    strings.internal_line (or_else e.title "") e.date (or_else e.place strings.unknown_location)

abbrev pub external_event_line : DigestStrings → DigestEvent → String
external_event_line strings e =
    strings.external_line (or_else e.title "") e.date (or_else e.place strings.unknown_host)

unfoldable pub collect_internal :
    DigestStrings → List DigestEvent → List User → List Participant → CollectResult
unfolding collect
collect_internal strings = collect (internal_event_line strings) strings

unfoldable pub collect_external :
    DigestStrings → List DigestEvent → List User → List Participant → CollectResult
unfolding collect
collect_external strings = collect (external_event_line strings) strings

pub record DigestRole : Type 0 where
  pub id : ℕ
  pub name : Option String
  pub email : Option String

-- The mail that is sent. Its recipients, blind copies and lines are lists, which the code joins.
pub record DigestMail : Type 0 where
  pub to : List String
  pub bcc : List String
  pub subject : String
  pub text : List String

pub record DigestStore : Type 0 where
  pub event_participants : List Participant
  pub external_event_participants : List Participant
  pub events : List DigestEvent
  pub external_events : List DigestEvent
  pub users : List User
  pub roles : List DigestRole
  pub user_roles : List (Option ℕ × Option ℕ)
  pub delivered : List DigestMail

abbrev pub is_role : String → DigestRole → Bool
is_role name r = elim r.name [ none ↦ false | some n ↦ n == name ]

abbrev pub role_emails : List DigestRole → List String
role_emails roles = some_values (map (λ r. filled r.email) roles)

abbrev pub is_empty {ℓ} : {A : Type ℓ} → List A → Bool
is_empty [] = true
is_empty (_ ∷ _) = false

-- Secretary and JuniorDeacon, or else WorshipfulMaster.
unfoldable pub digest_recipients : List DigestRole → List String
digest_recipients roles =
    let recipients =
      role_emails (select (λ r. is_role "Secretary" r || is_role "JuniorDeacon" r) roles) in
    if is_empty recipients
    then elim (find (is_role "WorshipfulMaster") roles) [
      | none ↦ []
      | some r ↦ some_values (filled r.email ∷ [])
    ]
    else recipients

abbrev pub is_active : User → Bool
is_active u = elim u.deleted [ none ↦ false | some d ↦ not d ]

unfoldable pub admin_bcc_addresses : DigestStore → List String
admin_bcc_addresses s = elim (find (is_role "Admin") s.roles) [
  | none ↦ []
  | some role ↦
      let holders =
        some_values (map (λ r. r.0) (select (λ r. is_number role.id r.1) s.user_roles)) in
      some_values (
        map (λ u. filled (some u.email))
          (select (λ u. includes holders u.id && is_active u) s.users))
]

abbrev pub notified : ℕ → Participant → Participant
notified now p = record p { notified_at = some now }

-- `updateMany({ where: { id: { in: ids } } })`
unfoldable pub mark_notified : ℕ → List ℕ → List Participant → List Participant
mark_notified now ids rows = update_where (λ p. includes ids p.id) (notified now) rows

-- Two tables of rows marked at once.
unfoldable pub mark_both : ℕ → List ℕ → List ℕ → DigestStore → DigestStore
unfolding mark_notified
mark_both now internal external s = record s {
  event_participants = mark_notified now internal s.event_participants;
  external_event_participants = mark_notified now external s.external_event_participants;
}

abbrev pub digest_mail :
    DigestStrings → CollectResult → CollectResult → List String → DigestStore → DigestMail
digest_mail strings internal external recipients s = record {
  to = recipients;
  bcc = admin_bcc_addresses s;
  subject = strings.subject;
  text = strings.greeting ∷ "" ∷ ((internal.lines ++ external.lines) ++ "--" ∷ strings.footer ∷ []);
}

-- `send` says whether `sendMail` returns or throws. The recipients and the number of events are the
-- result.
unfoldable pub send_event_registration_digest :
    DigestStrings → (DigestMail → Bool) → ℕ → DigestStore → (List String × ℕ) × DigestStore
unfolding collect_internal collect_external digest_recipients admin_bcc_addresses mark_both
send_event_registration_digest strings send now s =
    let internal = collect_internal strings s.events s.users s.event_participants in
    let external =
      collect_external strings s.external_events s.users s.external_event_participants in
    let s1 = mark_both now internal.stray_ids external.stray_ids s in
    let event_count = internal.event_count + external.event_count in
    if event_count == 0
    then (([], 0), s1)
    else let recipients = digest_recipients s.roles in
      if is_empty recipients
      then (([], event_count), s1)
      else let mail = digest_mail strings internal external recipients s in
        if not (send mail) then (([], event_count), s1) else (
          (recipients, event_count),
          mark_both now internal.valid_ids external.valid_ids
              (record s1 { delivered = s1.delivered ++ mail ∷ [] }),
        )
