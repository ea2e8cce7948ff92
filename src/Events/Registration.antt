-- ===== src/Events/Registration.antt =====
-- Who comes to an event: POST and DELETE of the participants, in events.ts and, with the subject and
-- the table exchanged, in externalEvents.ts, and the confirmation of the latter.
pub mod Rights
pub mod Once
use intern_logenhelfer_de.Base.{
  ℕ, suc, String, Bool, true, false, not, ◌&&◌, ◌||◌, Option, none, some, List, [], ◌∷◌, ◌++◌, ◌==◌,
  nat_eq, string_eq, if◌then◌else◌, find, select, update_where, is_some, join_with,
}
use Prim.Native.String
use intern_logenhelfer_de.Http.{Reply, registration, error_reply, empty}
use intern_logenhelfer_de.Store.{User}
use intern_logenhelfer_de.Authz.Rules.{
  Casl, SubjectName, manage, is_number, event_participant, external_event_participant,
}
use intern_logenhelfer_de.Authz.Ability.{is_true, some_values}
use intern_logenhelfer_de.Members.Access.{class}
use intern_logenhelfer_de.Members.Accounts.{Caller, forbidden}
use intern_logenhelfer_de.Routes.Grant.{plain}

-- A row of `events` or `external_events`, as far as it is read here.
pub record EventRow : Type 0 where
  pub id : ℕ
  pub uuid : Option String
  pub deleted : Option Bool

-- A row of `event_participants` or `external_event_participants`.
pub record EventParticipant : Type 0 where
  pub id : ℕ
  pub event_id : Option ℕ
  pub user_id : Option ℕ
  pub festive_board : Option Bool
  pub subscription_confirmed : Option Bool
  pub updated_at : ℕ

pub record EventTables : Type 0 where
  pub users : List User
  pub events : List EventRow
  pub participants : List EventParticipant
  pub next_id : ℕ

abbrev pub not_found : Reply
not_found = error_reply 404 "not_found" none

abbrev pub already_registered : Reply
already_registered = error_reply 422 "unprocessable" (some "Bereits angemeldet")

abbrev pub is_text : String → Option String → Bool
is_text t none = false
is_text t (some u) = u == t

-- `{ uuid, deleted: false }`
abbrev pub is_visible : String → EventRow → Bool
is_visible uuid e = is_text uuid e.uuid && (is_some e.deleted && not (is_true e.deleted))

unfoldable pub find_visible_event : String → List EventRow → Option EventRow
find_visible_event uuid events = find (is_visible uuid) events

unfoldable pub find_user : String → List User → Option User
find_user uuid users = find (λ u. is_text uuid u.uuid) users

abbrev pub is_registration : ℕ → ℕ → EventParticipant → Bool
is_registration event_id user_id r = is_number event_id r.event_id && is_number user_id r.user_id

abbrev pub or_blank : Option String → String
or_blank none = ""
or_blank (some t) = t

-- externalEvents.ts leaves out an empty name too; events.ts only a missing one.
abbrev pub present_names : SubjectName → List String → List String
present_names external_event_participant names = select (λ n. not (n == "")) names
present_names _ names = names

abbrev pub fullname : SubjectName → User → String
fullname subject u =
    join_with " " (present_names subject (some_values (u.firstname ∷ u.lastname ∷ [])))

-- The member whom the body names; an empty text and anything but a text name nobody.
abbrev pub named_uuid : Option String → Option String
named_uuid none = none
named_uuid (some uuid) = if uuid == "" then none else some uuid

abbrev pub on_behalf : String → User → Bool
on_behalf uuid u = not (is_text uuid u.uuid)

-- The reply of externalEvents.ts tells of the confirmation, the one of events.ts does not.
abbrev pub told_confirmed : SubjectName → Bool → Option Bool
told_confirmed external_event_participant confirmed = some confirmed
told_confirmed _ confirmed = none

abbrev pub registered_reply : SubjectName → ℕ → User → Bool → Bool → Reply
registered_reply subject status target festive confirmed = plain status (
    registration (or_blank target.uuid) (fullname subject target) festive
      (told_confirmed subject confirmed))

abbrev pub new_participant : ℕ → EventRow → User → Bool → ℕ → EventParticipant
new_participant id event target festive now = record {
  id = id;
  event_id = some event.id;
  user_id = some target.id;
  festive_board = some festive;
  subscription_confirmed = some false;
  updated_at = now;
}

-- `@@unique([external_event_id, user_id])`, which event_participants does not have.
abbrev pub has_unique_key : SubjectName → Bool
has_unique_key external_event_participant = true
has_unique_key _ = false

-- The steps from the look-up of a registration that is there already. The look-up and the creation
-- are two calls with no transaction: `seen` are the rows at the look-up, `s` the tables at the
-- creation, which breaks off on a unique key that is taken.
unfoldable pub enroll :
    SubjectName
    → EventRow
    → User
    → Bool
    → ℕ
    → List EventParticipant
    → EventTables
    → Reply × EventTables
enroll subject event target festive now seen s =
    if is_some (find (is_registration event.id target.id) seen)
    then (already_registered, s)
    else if has_unique_key subject
        && is_some (find (is_registration event.id target.id) s.participants)
    then (error_reply 500 "internal_server_error" none, s)
    else (
      registered_reply subject 201 target festive false,
      record s {
        participants = s.participants ++ new_participant s.next_id event target festive now ∷ [];
        next_id = suc s.next_id;
      },
    )

-- The steps from the look-up of the member whose row is deleted.
unfoldable pub withdraw : EventRow → String → EventTables → Reply × EventTables
unfolding find_user
withdraw event user_uuid s = elim (find_user user_uuid s.users) [
  | none ↦ (not_found, s)
  | some target ↦ elim (find (is_registration event.id target.id) s.participants) [
    | none ↦ (not_found, s)
    | some p ↦ (
      plain 204 empty,
      record s { participants = select (λ r. not (r.id == p.id)) s.participants },
    )
  ]
]

module _ (casl : Casl) (subject : SubjectName) where
  abbrev pub may_manage : Caller → Bool
  may_manage caller = casl.can caller.ability manage (class subject)

  abbrev pub enroll_named :
      Caller
      → EventRow
      → Option String
      → Bool
      → ℕ
      → List EventParticipant
      → EventTables
      → Reply × EventTables
  enroll_named caller event none festive now seen s =
      enroll subject event caller.user festive now seen s
  enroll_named caller event (some uuid) festive now seen s =
      if not (on_behalf uuid caller.user)
      then enroll subject event caller.user festive now seen s
      else if not (may_manage caller)
      then (forbidden, s)
      else elim (find_user uuid s.users) [
        | none ↦ (not_found, s)
        | some target ↦ enroll subject event target festive now seen s
      ]

  unfoldable pub register :
      Caller
      → String
      → Option String
      → Bool
      → ℕ
      → List EventParticipant
      → EventTables
      → Reply × EventTables
  unfolding find_visible_event find_user enroll
  register caller uuid user_uuid festive now seen s = elim (find_visible_event uuid s.events) [
    | none ↦ (not_found, s)
    | some event ↦ enroll_named caller event (named_uuid user_uuid) festive now seen s
  ]

  unfoldable pub unregister : Caller → String → String → EventTables → Reply × EventTables
  unfolding find_visible_event withdraw
  unregister caller uuid user_uuid s = elim (find_visible_event uuid s.events) [
    | none ↦ (not_found, s)
    | some event ↦
        if on_behalf user_uuid caller.user && not (may_manage caller)
        then (forbidden, s)
        else withdraw event user_uuid s
  ]

abbrev pub confirmed : ℕ → EventParticipant → EventParticipant
confirmed now r = record r { subscription_confirmed = some true; updated_at = now }

-- The host's lodge has the member on its list (externalEvents.ts alone).
unfoldable pub confirm : Casl → Caller → String → String → ℕ → EventTables → Reply × EventTables
unfolding find_visible_event find_user
confirm casl caller uuid user_uuid now s = elim (find_visible_event uuid s.events) [
  | none ↦ (not_found, s)
  | some event ↦
      if not (may_manage casl external_event_participant caller)
      then (forbidden, s)
      else elim (find_user user_uuid s.users) [
        | none ↦ (not_found, s)
        | some target ↦ elim (find (is_registration event.id target.id) s.participants) [
          | none ↦ (not_found, s)
          | some p ↦ (
            registered_reply external_event_participant 200 target (is_true p.festive_board) true,
            record s {
              participants = update_where (λ r. r.id == p.id) (confirmed now) s.participants;
            },
          )
        ]
      ]
]
