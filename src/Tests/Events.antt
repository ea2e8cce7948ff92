-- ===== src/Tests/Events.antt =====
-- A small calendar of the lodge, and one event of another.
use intern_logenhelfer_de.Base.{
  count_where, ℕ, ◌≡◌, ◌↔◌, ◌<◌, refl, true, false, Option, none, some, [], ◌∷◌, arith, All,
}
use intern_logenhelfer_de.Authz.Ability.{build_ability, impersonate_guard, role_rules, is_admin}
use intern_logenhelfer_de.Authz.Grants.{role_ability_builders}
use intern_logenhelfer_de.Authz.Rules.{event_participant}
use intern_logenhelfer_de.Members.Accounts.{Caller}
use intern_logenhelfer_de.Events.Registration.{
  EventTables, find_user, register, unregister, may_manage, is_registration, find_visible_event,
}
use intern_logenhelfer_de.Events.Registration.Once.{IsOnce, register-IsOnce, register-unregister}
use intern_logenhelfer_de.Events.Registration.Rights.{others, registration_rights}
use intern_logenhelfer_de.Events.Times.{
  string, absent, flag, utc_time, parse_time_input, clock_text, format_time, parse_date_only_param,
  utc_date, match_date, match_time, match_seconds,
}
use intern_logenhelfer_de.Events.Times.Clock.{parse_time_input-format_time}
use intern_logenhelfer_de.Events.Lodge.{Event, EventBody, Events}
use intern_logenhelfer_de.Events.Lodge.Handlers.{create_event, patch_event, delete_event}
use intern_logenhelfer_de.Events.Lodge.Sound.{IsSoundEvent, AllSound, create_event-AllSound}
use intern_logenhelfer_de.Events.Foreign.{
  ForeignEvent, ForeignBody, ForeignEvents, delete_external_event,
}
use intern_logenhelfer_de.Events.Foreign.Imported.{imported, imported_kept}
use intern_logenhelfer_de.Tests.Data.{packages, casl, member, other_member}

abbrev mason : Caller
mason = record {
  user = member;
  ability = build_ability (some 1) ("MasterMason" ∷ []);
  impersonator = none;
}

abbrev tables : EventTables
tables = record {
  users = member ∷ other_member ∷ [];
  events = (record { id = 4; uuid = some "e4"; deleted = some false }) ∷ [];
  participants =
      (record {
        id = 7;
        event_id = some 4;
        user_id = some 2;
        festive_board = some true;
        subscription_confirmed = some false;
        updated_at = 0;
      })
      ∷ [];
  next_id = 8;
}

once : IsOnce tables.participants
once event_id user_id = ground arith

register-IsOnce_example :
    let seen = tables.participants in
    let s1 = (register casl event_participant mason "e4" none true 5 seen tables).1 in
    let s2 = (register casl event_participant mason "e4" none true 5 seen s1).1 in
    count_where (is_registration 4 1) s2.participants ≡ 2
unfolding find_visible_event
register-IsOnce_example =
    (register-IsOnce casl event_participant mason "e4" none true 5 "u2" tables.participants tables
        once).2
      (record { id = 4; uuid = some "e4"; deleted = some false }) refl refl refl

register-unregister_example :
    (unregister casl event_participant mason "e4" "u1"
      (register casl event_participant mason "e4" none true 5 tables.participants
        tables).1).1.participants
    ≡ tables.participants
unfolding find_visible_event find_user
register-unregister_example =
    (register-unregister casl event_participant mason "e4" "u1" true 5 tables
      (record { id = 4; uuid = some "e4"; deleted = some false }) refl refl refl
      ((λ h. omega (arith, h)), tt) refl).3

mason_manages_none : may_manage casl event_participant mason ≡ false
unfolding build_ability role_ability_builders impersonate_guard role_rules is_admin
mason_manages_none = refl

registration_rights_example :
    others 1 (unregister casl event_participant mason "e4" "u2" tables).1.participants
    ≡ others 1 tables.participants
unfolding find_user
registration_rights_example =
    (registration_rights casl event_participant mason "e4" "u1" none true 5 "u2" [] tables
      mason_manages_none refl refl (tt, tt)).1

parse_time_input-format_time_example :
    (parse_time_input packages (string (clock_text 25 0)) ≡ some (some (utc_time (25, (0, 0)))))
    × ((format_time (some (utc_time (25, (0, 0)))) ≡ some (clock_text 25 0))
        ↔ ((25 < 24) × (0 < 60)))
parse_time_input-format_time_example =
    parse_time_input-format_time packages 25 0 (omega arith) (omega arith) refl

-- The thirty-first of February is taken for the third of March.
rolled_over :
    parse_date_only_param packages (string "2026-02-31")
    ≡ parse_date_only_param packages (string "2026-03-03")
unfolding parse_date_only_param match_date utc_date
rolled_over = refl

abbrev some_day : Option ℕ
some_day = some 740_000

abbrev work : Event
work = record {
  id = 4;
  uuid = some "e4";
  title = some "Arbeit";
  date = 740_000;
  time = some 72_000_000;
  end_time = none;
  whole_day = some false;
  location = none;
  public_description = none;
  private_description = none;
  created_by_id = some 1;
  updated_by_id = none;
  deleted = some false;
  created_at = 0;
  updated_at = 0;
}

abbrev calendar : Events
calendar = record { rows = work ∷ []; next_id = 5 }

abbrev body : EventBody
body = record {
  title = string "Schwesternfest";
  date = string "2026-05-01";
  time = absent;
  end_time = string "19:00";
  whole_day = flag false;
  location = absent;
  public_description = absent;
  private_description = absent;
}

abbrev officer : Caller
officer = record mason { ability = build_ability (some 1) ("WorshipfulMaster" ∷ []) }

create_event-AllSound_example :
    AllSound true (create_event packages casl officer body ("e5" ∷ []) 9 calendar)
    × All (IsSoundEvent true) (patch_event packages casl officer "e4" body 9 calendar).1.rows
    × All (IsSoundEvent true) (delete_event packages casl officer "e4" calendar).1.rows
unfolding parse_time_input match_time match_seconds
create_event-AllSound_example =
    create_event-AllSound packages casl true officer "e4" body ("e5" ∷ []) 9 calendar
      (λ asked. (refl, refl))
      (
        (
          record {
            titled = refl;
            created = refl;
            timed = (λ h. refl);
            forwards = (λ t u asked h k e. absurd (ground arith));
          },
          refl,
          refl,
        ),
        tt,
      )

abbrev feast : ForeignEvent
feast = record {
  id = 3;
  uuid = some "x3";
  title = "Stiftungsfest";
  host = some "Zur Eiche";
  location = "Berlin";
  description = none;
  date = 740_100;
  time = 68_400_000;
  end_time = none;
  created_by_id = 1;
  updated_by_id = none;
  deleted = some false;
  ics_source_id = some 1;
  ics_uid = some "uid";
  created_at = 0;
  updated_at = 0;
}

abbrev foreign_body : ForeignBody
foreign_body = record {
  title = string "Fest";
  host = string "Zur Linde";
  location = string "Kiel";
  description = absent;
  date = string "2026-06-24";
  time = string "19:00";
  end_time = absent;
}

abbrev foreign_events : ForeignEvents
foreign_events = record { rows = feast ∷ []; next_id = 4 }

imported_kept_example :
    imported (delete_external_event packages casl officer "x3" foreign_events).1.rows
    ≡ imported foreign_events.rows
imported_kept_example =
    (imported_kept packages casl officer "x3" foreign_body ("x4" ∷ []) 9 foreign_events (tt, tt)).2
