-- ===== src/Events/Lodge/Sound.antt =====
-- What is stored of an event: the checks of a request and the cut to a time of day.
use intern_logenhelfer_de.Base.{
  ℕ, ◌≡◌, ◌<◌, ◌↔◌, refl, String, Bool, true, false, not, ◌&&◌, Option, none, some, List, [], ◌==◌,
  nat_eq, string_eq, is_some, arith, All, All-append, All-find, All-update_where, ltb, lt→ltb, sym,
  ap, ◌∙◌, ◌%◌, Bool-cases, Option-cases, inl, inr, List-cases,
}
use intern_logenhelfer_de.External.{External}
use intern_logenhelfer_de.Authz.Rules.{Casl, create, update, destroy, event}
use intern_logenhelfer_de.Authz.Ability.{is_true}
use intern_logenhelfer_de.Helpers.Uuid.{generate_unique_uuid}
use intern_logenhelfer_de.Members.Access.{class}
use intern_logenhelfer_de.Members.Accounts.{Caller}
use intern_logenhelfer_de.Events.Registration.{is_text}
use intern_logenhelfer_de.Events.Times.{parse_time_input, parse_date_only_param}
use intern_logenhelfer_de.Events.Lodge.{
  Event, EventBody, EventReply, Events, is_blank, is_backwards, validate_event, to_nullable_string,
  is_flag, is_uuid_taken, date_or_kept, time_or_null, or_kept, patched, removed, find_event,
  text_or_kept, flag_or_kept, time_of_day,
}
use intern_logenhelfer_de.Events.Lodge.Handlers.{
  create_checked, create_event, patch_found, patch_event, delete_event,
}

-- What an event must have: a title, a creator, and unless it lasts the whole day a time; and, if it
-- is asked for, this time is before its end if it has one.
pub record IsSound (ordered : Bool) (title : Option String) (whole_day : Bool)
    (time end_time created_by_id : Option ℕ) : Type 0 where
  pub titled : is_blank title ≡ false
  pub created : is_some created_by_id ≡ true
  pub timed : whole_day ≡ false → is_some time ≡ true
  pub forwards :
      (t u : ℕ) → ordered ≡ true → whole_day ≡ false → time ≡ some t → end_time ≡ some u → t < u

in_order :
    (whole_day : Bool) (time end_time : Option ℕ)
    → ((t u : ℕ) → whole_day ≡ false → time ≡ some t → end_time ≡ some u → t < u)
    → (not whole_day && is_backwards time end_time) ≡ false
in_order whole_day none end_time d = ground arith
in_order whole_day (some t) none d = ground arith
in_order true (some t) (some u) d = refl
in_order false (some t) (some u) d = let before = d t u refl refl refl in ground arith

-- The checks are all that it takes, with a date.
pub validate_event_lem :
    (title : Option String) (date : Option ℕ) (whole_day : Bool) (time end_time created : Option ℕ)
    → (validate_event title date whole_day time end_time created ≡ [])
      ↔ (IsSound true title whole_day time end_time created × (is_some date ≡ true))
unfolding validate_event
validate_event_lem title date whole_day time end_time created = (
  (λ valid. (
    record {
      titled = ground arith;
      created = ground arith;
      timed = (λ not_whole. ground arith);
      forwards = (λ t u asked not_whole begins ends. ground arith);
    },
    ground arith,
  )),
  (λ (sound, dated).
      let a = sound.titled in
      let b = sound.created in
      let c = sound.timed in
      let d = in_order whole_day time end_time (λ t u. sound.forwards t u refl) in
      ground (arith, c)),
)

abbrev pub is_within_day : Option ℕ → Bool
is_within_day none = true
is_within_day (some t) = ltb t 86_400_000

-- What is stored is a time of day, whatever was parsed.
abbrev pub IsSoundEvent : Bool → Event → Type 0
IsSoundEvent ordered e =
    IsSound ordered e.title (is_true e.whole_day) e.time e.end_time e.created_by_id
    × (is_within_day e.time ≡ true)
    × (is_within_day e.end_time ≡ true)

time_of_day-within : (o : Option ℕ) → is_within_day (time_of_day o) ≡ true
time_of_day-within none = refl
time_of_day-within (some t) = lt→ltb (t % 86_400_000) 86_400_000 (omega arith)

within_lem : (o : Option ℕ) → is_within_day o ≡ true → time_of_day o ≡ o
within_lem none h = refl
within_lem (some t) h =
    let below : t < 86_400_000 = ground (arith, h) in
    let same : t % 86_400_000 ≡ t = omega (arith, below) in ap (λ (n : ℕ). some n) same

is_some-time_of_day : (o : Option ℕ) → is_some o ≡ true → is_some (time_of_day o) ≡ true
is_some-time_of_day none h = h
is_some-time_of_day (some t) h = refl

or_kept-within :
    (given : Option (Option ℕ)) (kept : Option ℕ)
    → is_within_day (time_or_null given) ≡ true
    → is_within_day kept ≡ true
    → is_within_day (or_kept given kept) ≡ true
or_kept-within none kept h k = k
or_kept-within (some t) kept h k = h

-- From the values that were checked to the row that is stored.
stored-IsSound :
    (ordered : Bool) (title : Option String) (whole_day : Bool) (time end_time created : Option ℕ)
    → IsSound true title whole_day time end_time created
    → (ordered ≡ true → (is_within_day time ≡ true) × (is_within_day end_time ≡ true))
    → IsSound ordered title whole_day (time_of_day time) (time_of_day end_time) created
      × (is_within_day (time_of_day time) ≡ true)
      × (is_within_day (time_of_day end_time) ≡ true)
stored-IsSound ordered title whole_day time end_time created sound within = (
  record {
    titled = sound.titled;
    created = sound.created;
    timed = (λ h. is_some-time_of_day time (sound.timed h));
    forwards = (λ t u asked not_whole begins ends.
        let (first, last) = within asked in
        sound.forwards t u refl not_whole (sym (within_lem time first) ∙ begins)
          (sym (within_lem end_time last) ∙ ends));
  },
  time_of_day-within time,
  time_of_day-within end_time,
)

-- The outcome of a creation, if it has come to one.
abbrev pub AllSound : Bool → Option (EventReply × Events) → Type 0
AllSound ordered none = Unit
AllSound ordered (some (reply, s)) = All (IsSoundEvent ordered) s.rows

module _ (x : External) (casl : Casl) (ordered : Bool) where
  create_checked-AllSound :
      (caller : Caller) (body : EventBody) (date time end_time : Option ℕ) (draws : List String)
      (now : ℕ) (s : Events)
      → (ordered ≡ true → (is_within_day time ≡ true) × (is_within_day end_time ≡ true))
      → All (IsSoundEvent ordered) s.rows
      → AllSound ordered (create_checked x casl caller body date time end_time draws now s)
  unfolding create_checked
  create_checked-AllSound caller body date time end_time draws now s within sound =
      let title = to_nullable_string body.title in
      let whole = is_flag body.whole_day in
      elim (List-cases (validate_event title date whole time end_time (some caller.user.id))) [
        | inr (error, rest, wrong) ↦ rw (wrong, create_checked) sound
        | inl valid ↦
            let (fits, dated) =
              (validate_event_lem title date whole time end_time (some caller.user.id)).0 valid in
            elim (Option-cases date) [
              | inl none_given ↦ rw (valid, create_checked, none_given) sound
              | inr (day, given) ↦
                  elim (Option-cases (generate_unique_uuid (is_uuid_taken s.rows) draws)) [
                    | inl drawing ↦ rw (valid, create_checked, given, drawing) tt
                    | inr (uuid, drawn) ↦
                        rw (valid, create_checked, given, drawn)
                          (All-append (IsSoundEvent ordered) s.rows _ sound (
                            stored-IsSound ordered title whole time end_time (some caller.user.id)
                                fits within,
                            tt,
                          ))
                  ]
            ]
      ]

  patch_found-IsSoundEvent :
      (caller : Caller) (body : EventBody) (date time end_time : Option ℕ) (now : ℕ) (e : Event)
      (s : Events)
      → (ordered ≡ true → (is_within_day time ≡ true) × (is_within_day end_time ≡ true))
      → All (IsSoundEvent ordered) s.rows
      → All
          (IsSoundEvent ordered)
          (patch_found x casl caller body date time end_time now e s).1.rows
  unfolding patch_found
  patch_found-IsSoundEvent caller body date time end_time now e s within sound =
      let title = text_or_kept body.title e.title in
      let whole = flag_or_kept body.whole_day e.whole_day in
      elim (List-cases (validate_event title date whole time end_time e.created_by_id)) [
        | inr (error, rest, wrong) ↦ rw (wrong, patch_found) sound
        | inl valid ↦
            let (fits, dated) =
              (validate_event_lem title date whole time end_time e.created_by_id).0 valid in
            elim (Option-cases date) [
              | inl none_given ↦ rw (valid, patch_found, none_given) sound
              | inr (day, given) ↦
                  rw (valid, patch_found, given)
                    (All-update_where (IsSoundEvent ordered) (λ r. r.id == e.id)
                      (patched caller.user.id body day time end_time now e)
                      (λ a own. elim (Bool-cases (a.id == e.id)) [
                        | inl hit ↦
                            let (stored, first, last) =
                              stored-IsSound ordered title whole time end_time e.created_by_id fits
                                within in
                            rw hit (
                              record {
                                titled = stored.titled;
                                created = own.0.created;
                                timed = stored.timed;
                                forwards = stored.forwards;
                              },
                              first,
                              last,
                            )
                        | inr miss ↦ rw miss own
                      ])
                      s.rows sound)
            ]
      ]

  -- Where every event has a title, a creator, and unless it lasts the whole day a time, it is so after
  -- any request to create, change or remove one, whatever it says and whoever sends it. As long as
  -- the times in the requests are below 24:00 (`ordered`), no event ends before it begins either; no
  -- stored time is beyond a day in any case.
  pub create_event-AllSound :
      (caller : Caller) (uuid : String) (body : EventBody) (draws : List String) (now : ℕ)
      (s : Events)
      → (ordered ≡ true
          → (is_within_day (time_or_null (parse_time_input x body.time)) ≡ true)
            × (is_within_day (time_or_null (parse_time_input x body.end_time)) ≡ true))
      → All (IsSoundEvent ordered) s.rows
      → AllSound ordered (create_event x casl caller body draws now s)
        × All (IsSoundEvent ordered) (patch_event x casl caller uuid body now s).1.rows
        × All (IsSoundEvent ordered) (delete_event x casl caller uuid s).1.rows
  unfolding create_event patch_event delete_event find_event
  create_event-AllSound caller uuid body draws now s within sound = (
    elim (Bool-cases (casl.can caller.ability create (class event))) [
      | inr barred ↦ rw (create_event, barred) sound
      | inl right ↦
          rw (create_event, right)
            (create_checked-AllSound caller body (parse_date_only_param x body.date)
              (time_or_null (parse_time_input x body.time))
              (time_or_null (parse_time_input x body.end_time)) draws now s within sound)
    ],
    elim (Option-cases (find_event uuid s.rows)) [
      | inl hidden ↦ rw (hidden, patch_event) sound
      | inr (e, seen) ↦ elim (Bool-cases (casl.can caller.ability update (class event))) [
        | inr barred ↦ rw (seen, patch_event, barred) sound
        | inl right ↦
            let (_, began, ended) =
              All-find (IsSoundEvent ordered)
                (λ r. is_text uuid r.uuid && (is_some r.deleted && not (is_true r.deleted))) s.rows
                e sound seen in
            rw (seen, patch_event, right)
              (patch_found-IsSoundEvent caller body (date_or_kept x body.date e.date)
                (or_kept (parse_time_input x body.time) e.time)
                (or_kept (parse_time_input x body.end_time) e.end_time) now e s
                (λ asked.
                  let (first, last) = within asked in
                  (
                    or_kept-within (parse_time_input x body.time) e.time first began,
                    or_kept-within (parse_time_input x body.end_time) e.end_time last ended,
                  ))
                sound)
      ]
    ],
    elim (Option-cases (find_event uuid s.rows)) [
      | inl hidden ↦ rw (hidden, delete_event) sound
      | inr (e, seen) ↦ elim (Bool-cases (casl.can caller.ability destroy (class event))) [
        | inr barred ↦ rw (seen, delete_event, barred) sound
        | inl right ↦
            rw (seen, delete_event, right)
              (All-update_where (IsSoundEvent ordered) (λ r. r.id == e.id) removed
                (λ a own. elim (Bool-cases (a.id == e.id)) [
                  | inl hit ↦ rw hit own
                  | inr miss ↦ rw miss own
                ])
                s.rows sound)
      ]
    ],
  )
