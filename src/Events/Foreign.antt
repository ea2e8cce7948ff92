-- ===== src/Events/Foreign.antt =====
-- The events of other lodges: api/src/routes/externalEvents.ts, creation, change and removal. What
-- it shares with events.ts in the same words (times, texts, blanks) is in Times and Lodge.
pub mod Imported
use Prim.Native.String
use intern_logenhelfer_de.Base.{
  ℕ, suc, String, Bool, true, false, not, ◌&&◌, Option, none, some, List, [], ◌∷◌, ◌++◌, ◌==◌,
  nat_eq, if◌then◌else◌, find, any, update_where, is_some, join_with,
}
use intern_logenhelfer_de.External.{External}
use intern_logenhelfer_de.Http.{Reply, empty, error_reply}
use intern_logenhelfer_de.Authz.Rules.{Casl, create, update, destroy, external_event}
use intern_logenhelfer_de.Authz.Ability.{is_true}
use intern_logenhelfer_de.Helpers.Uuid.{generate_unique_uuid}
use intern_logenhelfer_de.Members.Access.{class}
use intern_logenhelfer_de.Members.Accounts.{Caller, forbidden}
use intern_logenhelfer_de.Routes.Grant.{plain}
use intern_logenhelfer_de.Events.Registration.{is_text, not_found, or_blank}
use intern_logenhelfer_de.Events.Times.{BodyValue, parse_time_input, parse_date_only_param}
use intern_logenhelfer_de.Events.Lodge.{
  to_nullable_string, is_blank, is_missing, push_if, is_backwards, time_or_null, or_kept, or_zero,
  time_of_day, text_or_kept, date_or_kept,
}

-- A row of `external_events`; the date is the number of its day.
pub record ForeignEvent : Type 0 where
  pub id : ℕ
  pub uuid : Option String
  pub title : String
  pub host : Option String
  pub location : String
  pub description : Option String
  pub date : ℕ
  pub time : ℕ
  pub end_time : Option ℕ
  pub created_by_id : ℕ
  pub updated_by_id : Option ℕ
  pub deleted : Option Bool
  pub ics_source_id : Option ℕ
  pub ics_uid : Option String
  pub created_at : ℕ
  pub updated_at : ℕ

pub record ForeignBody : Type 0 where
  pub title : BodyValue
  pub host : BodyValue
  pub location : BodyValue
  pub description : BodyValue
  pub date : BodyValue
  pub time : BodyValue
  pub end_time : BodyValue

pub record ForeignEvents : Type 0 where
  pub rows : List ForeignEvent
  pub next_id : ℕ

-- The values of a request, as they are validated and then stored.
pub record Draft : Type 0 where
  pub title : Option String
  pub host : Option String
  pub location : Option String
  pub description : Option String
  pub date : Option ℕ
  pub time : Option ℕ
  pub end_time : Option ℕ

unfoldable pub validate_external_event : Draft → List String
validate_external_event d = push_if (is_blank d.title) "Titel muss ausgefüllt werden" (
    push_if (is_blank d.host) "Loge muss ausgefüllt werden" (
      push_if (is_blank d.location) "Ort muss ausgefüllt werden" (
        push_if (is_missing d.date) "Datum muss ausgefüllt werden" (
          push_if (is_missing d.time) "Uhrzeit muss ausgefüllt werden"
            (push_if (is_backwards d.time d.end_time) "Endzeit muss nach der Uhrzeit liegen" [])))))

-- A reply with no event (an error, or an empty one), or one with a status and the row to show.
pub data ForeignReply : Type 0 where
  bare : Reply → ForeignReply
  sent : ℕ → ForeignEvent → ForeignReply

abbrev pub unprocessable : String → ForeignReply
unprocessable detail = bare (error_reply 422 "unprocessable" (some detail))

-- The casts `title as string`, `date as Date`: what was validated is there.
abbrev pub stored : Draft → ForeignEvent → ForeignEvent
stored d e = record e {
  title = or_blank d.title;
  host = d.host;
  location = or_blank d.location;
  description = d.description;
  date = or_zero d.date;
  time = or_zero (time_of_day d.time);
  end_time = time_of_day d.end_time;
}

abbrev pub fresh_event : ℕ → String → ℕ → ℕ → ForeignEvent
fresh_event id uuid user_id now = record {
  id = id;
  uuid = some uuid;
  title = "";
  host = none;
  location = "";
  description = none;
  date = 0;
  time = 0;
  end_time = none;
  created_by_id = user_id;
  updated_by_id = none;
  deleted = some false;
  ics_source_id = none;
  ics_uid = none;
  created_at = now;
  updated_at = now;
}

abbrev pub updated_by : ℕ → ℕ → ForeignEvent → ForeignEvent
updated_by user_id now e = record e { updated_by_id = some user_id; updated_at = now }

abbrev pub hidden_event : ForeignEvent → ForeignEvent
hidden_event e = record e { deleted = some true }

unfoldable pub find_visible_external_event : String → List ForeignEvent → Option ForeignEvent
find_visible_external_event uuid rows =
    find (λ e. is_text uuid e.uuid && (is_some e.deleted && not (is_true e.deleted))) rows

abbrev pub is_imported : ForeignEvent → Bool
is_imported e = is_some e.ics_source_id

module _ (x : External) where
  unfoldable pub draft_of : ForeignBody → Draft
  unfolding to_nullable_string parse_date_only_param parse_time_input
  draft_of body = record {
    title = to_nullable_string body.title;
    host = to_nullable_string body.host;
    location = to_nullable_string body.location;
    description = to_nullable_string body.description;
    date = parse_date_only_param x body.date;
    time = time_or_null (parse_time_input x body.time);
    end_time = time_or_null (parse_time_input x body.end_time);
  }

  unfoldable pub draft_on : ForeignBody → ForeignEvent → Draft
  unfolding to_nullable_string parse_date_only_param parse_time_input
  draft_on body e = record {
    title = text_or_kept body.title (some e.title);
    host = text_or_kept body.host e.host;
    location = text_or_kept body.location (some e.location);
    description = text_or_kept body.description e.description;
    date = date_or_kept x body.date e.date;
    time = or_kept (parse_time_input x body.time) (some e.time);
    end_time = or_kept (parse_time_input x body.end_time) e.end_time;
  }

  module _ (casl : Casl) where
    -- `none` while every UUID that was drawn is taken, so that the drawing goes on.
    unfoldable pub create_external_event :
        Caller
        → ForeignBody
        → List String
        → ℕ
        → ForeignEvents
        → Option (ForeignReply × ForeignEvents)
    unfolding draft_of validate_external_event generate_unique_uuid
    create_external_event caller body draws now s =
        if not (casl.can caller.ability create (class external_event))
        then some (bare forbidden, s)
        else elim (validate_external_event (draft_of body)) [
          | ◌∷◌ error errors ↦ some (unprocessable (join_with ", " (error ∷ errors)), s)
          | [] ↦ elim (generate_unique_uuid (λ id. any (λ e. is_text id e.uuid) s.rows) draws) [
            | none ↦ none
            | some uuid ↦
                let e = stored (draft_of body) (fresh_event s.next_id uuid caller.user.id now) in
                some (sent 201 e, record s { rows = s.rows ++ e ∷ []; next_id = suc s.next_id })
          ]
        ]

    unfoldable pub patch_external_event :
        Caller → String → ForeignBody → ℕ → ForeignEvents → ForeignReply × ForeignEvents
    unfolding find_visible_external_event draft_on validate_external_event
    patch_external_event caller uuid body now s = elim (find_visible_external_event uuid s.rows) [
      | none ↦ (bare not_found, s)
      | some e ↦
          if not (casl.can caller.ability update (class external_event))
          then (bare forbidden, s)
          else if is_imported e
          then (unprocessable "ICS-importierte Termine können nicht bearbeitet werden", s)
          else elim (validate_external_event (draft_on body e)) [
            | ◌∷◌ error errors ↦ (unprocessable (join_with ", " (error ∷ errors)), s)
            | [] ↦
                let change : ForeignEvent → ForeignEvent =
                  λ r. updated_by caller.user.id now (stored (draft_on body e) r) in
                (
                  sent 200 (change e),
                  record s { rows = update_where (λ r. r.id == e.id) change s.rows },
                )
          ]
    ]

    unfoldable pub delete_external_event :
        Caller → String → ForeignEvents → ForeignReply × ForeignEvents
    unfolding find_visible_external_event
    delete_external_event caller uuid s = elim (find_visible_external_event uuid s.rows) [
      | none ↦ (bare not_found, s)
      | some e ↦
          if not (casl.can caller.ability destroy (class external_event))
          then (bare forbidden, s)
          else if is_imported e
          then (unprocessable "ICS-importierte Termine können nicht gelöscht werden", s)
          else (
            bare (plain 204 empty),
            record s { rows = update_where (λ r. r.id == e.id) hidden_event s.rows },
          )
    ]
