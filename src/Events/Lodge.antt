-- ===== src/Events/Lodge.antt =====
-- The lodge's own events: api/src/routes/events.ts, creation, change and removal.
pub mod Sound
pub mod Handlers
use Prim.Native.String
use intern_logenhelfer_de.Base.{
  ℕ, suc, String, Bool, true, false, not, ◌&&◌, ◌||◌, Option, none, some, List, [], ◌∷◌, ◌++◌, leb,
  ◌==◌, ◌%◌, nat_eq, string_eq, if◌then◌else◌, find, any, update_where, is_some, join_with,
}
use intern_logenhelfer_de.External.{External}
use intern_logenhelfer_de.Http.{Reply, empty, error_reply}
use intern_logenhelfer_de.Authz.Rules.{Casl, create, update, destroy, event}
use intern_logenhelfer_de.Authz.Ability.{is_true}
use intern_logenhelfer_de.Helpers.Uuid.{generate_unique_uuid}
use intern_logenhelfer_de.Members.Access.{class}
use intern_logenhelfer_de.Members.Accounts.{Caller, forbidden}
use intern_logenhelfer_de.Routes.Grant.{plain}
use intern_logenhelfer_de.Events.Registration.{is_text, not_found, or_blank}
use intern_logenhelfer_de.Events.Times.{
  BodyValue, absent, null, string, flag, other, parse_time_input, parse_date_only_param,
  format_time,
}

-- A row of `events`; the date is the number of its day.
pub record Event : Type 0 where
  pub id : ℕ
  pub uuid : Option String
  pub title : Option String
  pub date : ℕ
  pub time : Option ℕ
  pub end_time : Option ℕ
  pub whole_day : Option Bool
  pub location : Option String
  pub public_description : Option String
  pub private_description : Option String
  pub created_by_id : Option ℕ
  pub updated_by_id : Option ℕ
  pub deleted : Option Bool
  pub created_at : ℕ
  pub updated_at : ℕ

pub record EventBody : Type 0 where
  pub title : BodyValue
  pub date : BodyValue
  pub time : BodyValue
  pub end_time : BodyValue
  pub whole_day : BodyValue
  pub location : BodyValue
  pub public_description : BodyValue
  pub private_description : BodyValue

-- The rows, and the next id.
pub record Events : Type 0 where
  pub rows : List Event
  pub next_id : ℕ

unfoldable pub to_nullable_string : BodyValue → Option String
to_nullable_string absent = none
to_nullable_string null = none
to_nullable_string (string t) = some t
to_nullable_string (flag true) = some "true"
to_nullable_string (flag false) = some "false"
to_nullable_string (other t) = some t

-- `value === true`
abbrev pub is_flag : BodyValue → Bool
is_flag (flag b) = b
is_flag _ = false

-- `isBlank`, for a text and for a value that is no text.
abbrev pub is_blank : Option String → Bool
is_blank none = true
is_blank (some t) = t == ""

abbrev pub is_missing {ℓ} : {A : Type ℓ} → Option A → Bool
is_missing o = not (is_some o)

-- `if (wrong) errors.push(message)`, before the checks that follow.
abbrev pub push_if : Bool → String → List String → List String
push_if wrong message rest = if wrong then message ∷ rest else rest

-- Two times of which the second is not after the first.
abbrev pub is_backwards : Option ℕ → Option ℕ → Bool
is_backwards (some t) (some u) = leb u t
is_backwards _ _ = false

unfoldable pub validate_event :
    Option String → Option ℕ → Bool → Option ℕ → Option ℕ → Option ℕ → List String
validate_event title date whole_day time end_time created_by_id =
    push_if (is_blank title) "Title can't be blank" (
      push_if (is_missing date) "Date can't be blank" (
        push_if (is_missing created_by_id) "Created by can't be blank" (
          push_if (not whole_day && is_missing time) "Time can't be blank" (
            push_if (not whole_day && is_backwards time end_time) "End time must be after time"
              []))))

-- What is shown of an event; the date is left as the number of its day.
pub record EventJson : Type 0 where
  pub uuid : String
  pub title : String
  pub date : ℕ
  pub time : Option String
  pub end_time : Option String
  pub whole_day : Bool
  pub location : Option String
  pub public_description : Option String
  pub private_description : Option String
  pub created_by_id : ℕ
  pub updated_by_id : Option ℕ
  pub created_at : ℕ
  pub updated_at : ℕ

abbrev pub or_zero : Option ℕ → ℕ
or_zero none = 0
or_zero (some n) = n

unfoldable pub event_json : Event → EventJson
unfolding format_time
event_json e =
    let whole_day = is_true e.whole_day in
    record {
      uuid = or_blank e.uuid;
      title = or_blank e.title;
      date = e.date;
      time = if whole_day then none else format_time e.time;
      end_time = if whole_day then none else format_time e.end_time;
      whole_day = whole_day;
      location = e.location;
      public_description = e.public_description;
      private_description = e.private_description;
      created_by_id = or_zero e.created_by_id;
      updated_by_id = e.updated_by_id;
      created_at = e.created_at;
      updated_at = e.updated_at;
    }

-- A reply with no event (an error, or an empty one), or one with a status and an event.
pub data EventReply : Type 0 where
  bare : Reply → EventReply
  sent : ℕ → EventJson → EventReply

abbrev pub invalid : List String → EventReply
invalid errors = bare (error_reply 422 "unprocessable" (some (join_with ", " errors)))

abbrev pub has_date : Option ℕ → List String → Option ℕ
has_date date [] = date
has_date date (error ∷ errors) = none

abbrev pub time_or_null : Option (Option ℕ) → Option ℕ
time_or_null none = none
time_or_null (some t) = t

abbrev pub or_kept {ℓ} : {A : Type ℓ} → Option A → A → A
or_kept none kept = kept
or_kept (some a) kept = a

-- The columns `time` and `end_time` are times of day: what is beyond a day is cut off.
abbrev pub time_of_day : Option ℕ → Option ℕ
time_of_day none = none
time_of_day (some t) = some (t % 86_400_000)

abbrev pub new_event : ℕ → String → ℕ → ℕ → Option ℕ → Option ℕ → ℕ → EventBody → Event
new_event id uuid user_id date time end_time now body = record {
  id = id;
  uuid = some uuid;
  title = to_nullable_string body.title;
  date = date;
  time = time_of_day time;
  end_time = time_of_day end_time;
  whole_day = some (is_flag body.whole_day);
  location = to_nullable_string body.location;
  public_description = to_nullable_string body.public_description;
  private_description = to_nullable_string body.private_description;
  created_by_id = some user_id;
  updated_by_id = none;
  deleted = some false;
  created_at = now;
  updated_at = now;
}

-- `has(key) ? … : existing`
abbrev pub text_or_kept : BodyValue → Option String → Option String
text_or_kept absent kept = kept
text_or_kept value kept = to_nullable_string value

abbrev pub flag_or_kept : BodyValue → Option Bool → Bool
flag_or_kept absent kept = is_true kept
flag_or_kept value kept = is_flag value

abbrev pub date_or_kept : External → BodyValue → ℕ → Option ℕ
date_or_kept x absent kept = some kept
date_or_kept x value kept = parse_date_only_param x value

abbrev pub is_uuid_taken : List Event → String → Bool
is_uuid_taken rows uuid = any (λ e. is_text uuid e.uuid) rows

unfoldable pub find_event : String → List Event → Option Event
find_event uuid rows =
    find (λ e. is_text uuid e.uuid && (is_some e.deleted && not (is_true e.deleted))) rows

-- What is stored in a row, from the event that was found.
abbrev pub patched : ℕ → EventBody → ℕ → Option ℕ → Option ℕ → ℕ → Event → Event → Event
patched user_id body date time end_time now e r = record r {
  title = text_or_kept body.title e.title;
  location = text_or_kept body.location e.location;
  public_description = text_or_kept body.public_description e.public_description;
  private_description = text_or_kept body.private_description e.private_description;
  whole_day = some (flag_or_kept body.whole_day e.whole_day);
  date = date;
  time = time_of_day time;
  end_time = time_of_day end_time;
  updated_by_id = some user_id;
  updated_at = now;
}

abbrev pub removed : Event → Event
removed e = record e { deleted = some true }
