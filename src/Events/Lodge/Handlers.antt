-- ===== src/Events/Lodge/Handlers.antt =====
-- The handlers POST /, PATCH /:uuid and DELETE /:uuid of api/src/routes/events.ts.
use intern_logenhelfer_de.Base.{
  ℕ, suc, String, not, Option, none, some, List, [], ◌∷◌, ◌++◌, ◌==◌, nat_eq, if◌then◌else◌,
  update_where,
}
use intern_logenhelfer_de.External.{External}
use intern_logenhelfer_de.Http.{empty}
use intern_logenhelfer_de.Authz.Rules.{Casl, create, update, destroy, event}
use intern_logenhelfer_de.Helpers.Uuid.{generate_unique_uuid}
use intern_logenhelfer_de.Members.Access.{class}
use intern_logenhelfer_de.Members.Accounts.{Caller, forbidden}
use intern_logenhelfer_de.Routes.Grant.{plain}
use intern_logenhelfer_de.Events.Registration.{not_found}
use intern_logenhelfer_de.Events.Times.{parse_time_input, parse_date_only_param}
use intern_logenhelfer_de.Events.Lodge.{
  Event, EventBody, Events, EventReply, bare, sent, invalid, validate_event, to_nullable_string,
  is_flag, event_json, time_or_null, or_kept, new_event, text_or_kept, flag_or_kept, date_or_kept,
  is_uuid_taken, find_event, patched, removed,
}

abbrev pub no_date : EventReply
no_date = invalid ("Date can't be blank" ∷ [])

module _ (x : External) (casl : Casl) where
  -- The values that are validated and then stored.
  unfoldable pub create_checked :
      Caller
      → EventBody
      → Option ℕ
      → Option ℕ
      → Option ℕ
      → List String
      → ℕ
      → Events
      → Option (EventReply × Events)
  unfolding validate_event to_nullable_string generate_unique_uuid event_json
  create_checked caller body date time end_time draws now s =
      let errors =
        validate_event (to_nullable_string body.title) date (is_flag body.whole_day) time end_time
          (some caller.user.id) in
      elim errors [
        | ◌∷◌ error rest ↦ some (invalid (error ∷ rest), s)
        | [] ↦ elim date [
          | none ↦ some (no_date, s)
          | some day ↦ elim (generate_unique_uuid (is_uuid_taken s.rows) draws) [
            | none ↦ none
            | some uuid ↦
                let e = new_event s.next_id uuid caller.user.id day time end_time now body in
                some (
                  sent 201 (event_json e),
                  record s { rows = s.rows ++ e ∷ []; next_id = suc s.next_id },
                )
          ]
        ]
      ]

  -- `none` while every UUID that was drawn is taken, so that the drawing goes on.
  unfoldable pub create_event :
      Caller → EventBody → List String → ℕ → Events → Option (EventReply × Events)
  unfolding create_checked parse_date_only_param parse_time_input
  create_event caller body draws now s =
      if not (casl.can caller.ability create (class event))
      then some (bare forbidden, s)
      else create_checked caller body (parse_date_only_param x body.date)
          (time_or_null (parse_time_input x body.time))
          (time_or_null (parse_time_input x body.end_time)) draws now s

  unfoldable pub patch_found :
      Caller → EventBody → Option ℕ → Option ℕ → Option ℕ → ℕ → Event → Events → EventReply × Events
  unfolding validate_event to_nullable_string event_json
  patch_found caller body date time end_time now e s =
      let errors =
        validate_event (text_or_kept body.title e.title) date
          (flag_or_kept body.whole_day e.whole_day) time end_time e.created_by_id in
      elim errors [
        | ◌∷◌ error rest ↦ (invalid (error ∷ rest), s)
        | [] ↦ elim date [
          | none ↦ (no_date, s)
          | some day ↦
              let change = patched caller.user.id body day time end_time now e in
              (
                sent 200 (event_json (change e)),
                record s { rows = update_where (λ r. r.id == e.id) change s.rows },
              )
        ]
      ]

  unfoldable pub patch_event : Caller → String → EventBody → ℕ → Events → EventReply × Events
  unfolding find_event patch_found parse_time_input parse_date_only_param
  patch_event caller uuid body now s = elim (find_event uuid s.rows) [
    | none ↦ (bare not_found, s)
    | some e ↦
        if not (casl.can caller.ability update (class event))
        then (bare forbidden, s)
        else patch_found caller body (date_or_kept x body.date e.date)
            (or_kept (parse_time_input x body.time) e.time)
            (or_kept (parse_time_input x body.end_time) e.end_time) now e s
  ]

  unfoldable pub delete_event : Caller → String → Events → EventReply × Events
  unfolding find_event
  delete_event caller uuid s = elim (find_event uuid s.rows) [
    | none ↦ (bare not_found, s)
    | some e ↦
        if not (casl.can caller.ability destroy (class event)) then (bare forbidden, s) else (
          bare (plain 204 empty),
          record s { rows = update_where (λ r. r.id == e.id) removed s.rows },
        )
  ]
