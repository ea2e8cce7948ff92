-- ===== src/Events/Registration/Once.antt =====
-- How often a member is registered for an event, and the way back.
use mathlib.Core.Bool.{and-false}
use intern_logenhelfer_de.Base.{
  ℕ, suc, ◌≤◌, ◌⊎◌, is_some, ◌≡◌, ◌≢◌, refl, ◌∙◌, String, Bool, true, false, not, ◌&&◌, Option,
  none, some, List, [], ◌∷◌, ◌++◌, ◌==◌, nat_eq, nat_beq_iff, eq_refl, string_eq, find,
  find-append_none, select, count_where, count_where-append, arith, All, Bool-cases, Option-cases,
  inl, inr,
}
use intern_logenhelfer_de.Store.{User}
use intern_logenhelfer_de.Authz.Rules.{Casl, SubjectName}
use intern_logenhelfer_de.Members.Accounts.{Caller}
use intern_logenhelfer_de.Http.{empty}
use intern_logenhelfer_de.Routes.Grant.{plain}
use intern_logenhelfer_de.Events.Registration.{
  registered_reply, EventRow, EventParticipant, EventTables, find_visible_event, find_user,
  is_registration, named_uuid, on_behalf, has_unique_key, new_participant, enroll, withdraw,
  may_manage, enroll_named, register, unregister,
}

-- No member has two rows for one event.
abbrev pub IsOnce : List EventParticipant → Type 0
IsOnce rows = (event_id user_id : ℕ) → count_where (is_registration event_id user_id) rows ≤ 1

count-none {ℓ} :
    {A : Type ℓ} (p : A → Bool) (rows : List A) → find p rows ≡ none → count_where p rows ≡ 0
count-none p [] h = refl
count-none p (r ∷ rows) h = ground (arith, count-none p rows)

count-select {ℓ} :
    {A : Type ℓ} (p q : A → Bool) (rows : List A)
    → count_where p (select q rows) ≤ count_where p rows
count-select p q [] = omega arith
count-select p q (r ∷ rows) =
    let rest = count-select p q rows in
    elim (Bool-cases (q r)) [ inl kept ↦ ground arith | inr gone ↦ ground arith ]

same_registration :
    (e u event_id user_id : ℕ) (rows : List EventParticipant)
    → (e == event_id && u == user_id) ≡ true
    → find (is_registration e u) rows ≡ none
    → count_where (is_registration event_id user_id) rows ≡ 0
same_registration e u event_id user_id rows same free =
    let first : e ≡ event_id = (nat_beq_iff e event_id).0 (ground arith) in
    let second : u ≡ user_id = (nat_beq_iff u user_id).0 (ground arith) in
    count-none (is_registration event_id user_id) rows (rw (← first, ← second) free)

-- A new row of a member who had none.
create-IsOnce :
    (event : EventRow) (target : User) (festive : Bool) (now : ℕ) (s : EventTables)
    → IsOnce s.participants
    → find (is_registration event.id target.id) s.participants ≡ none
    → IsOnce (s.participants ++ new_participant s.next_id event target festive now ∷ [])
create-IsOnce event target festive now s once free event_id user_id =
    let row = new_participant s.next_id event target festive now in
    let p = is_registration event_id user_id in
    let sum = count_where-append p s.participants (row ∷ []) in
    elim (Bool-cases (p row)) [
      | inr other ↦ let o = once event_id user_id in rw (sum, other) (omega (arith, o))
      | inl own ↦
          let none_yet =
            same_registration event.id target.id event_id user_id s.participants own free in
          rw (sum, own, none_yet) (omega arith)
    ]

-- What the look-up has not seen is not there at the creation either.
abbrev pub IsUnmoved : List EventParticipant → List EventParticipant → Type 0
IsUnmoved seen rows =
    (event_id user_id : ℕ)
    → find (is_registration event_id user_id) seen ≡ none
    → find (is_registration event_id user_id) rows ≡ none

enroll-IsOnce :
    (subject : SubjectName) (event : EventRow) (target : User) (festive : Bool) (now : ℕ)
    (seen : List EventParticipant) (s : EventTables)
    → (has_unique_key subject ≡ true) ⊎ IsUnmoved seen s.participants
    → IsOnce s.participants
    → IsOnce (enroll subject event target festive now seen s).1.participants
unfolding enroll
enroll-IsOnce subject event target festive now seen s safe once =
    elim (Option-cases (find (is_registration event.id target.id) seen)) [
      | inr (r, there) ↦ rw there once
      | inl unseen ↦
          elim (Option-cases (find (is_registration event.id target.id) s.participants)) [
            | inl free ↦
                rw (unseen, free, and-false (has_unique_key subject))
                  (create-IsOnce event target festive now s once free)
            | inr (r, added) ↦ elim safe [
              | inl unique ↦ rw (unseen, added, unique) once
              | inr unmoved ↦ let gone = unmoved event.id target.id unseen in absurd (cc)
            ]
          ]
    ]

withdraw-IsOnce :
    (event : EventRow) (user_uuid : String) (s : EventTables)
    → IsOnce s.participants
    → IsOnce (withdraw event user_uuid s).1.participants
unfolding withdraw
withdraw-IsOnce event user_uuid s once event_id user_id =
    elim (Option-cases (find_user user_uuid s.users)) [
      | inl unknown ↦ rw (unknown, withdraw) (once event_id user_id)
      | inr (target, known) ↦
          elim (Option-cases (find (is_registration event.id target.id) s.participants)) [
            | inl absent ↦ rw (known, withdraw, absent) (once event_id user_id)
            | inr (r, there) ↦
                let p = is_registration event_id user_id in
                let fewer = count-select p (λ q. not (q.id == r.id)) s.participants in
                let o = once event_id user_id in
                rw (known, withdraw, there) (omega (arith, fewer, o))
          ]
    ]

module _ (casl : Casl) (subject : SubjectName) where
  enroll_named-IsOnce :
      (caller : Caller) (event : EventRow) (name : Option String) (festive : Bool) (now : ℕ)
      (seen : List EventParticipant) (s : EventTables)
      → (has_unique_key subject ≡ true) ⊎ IsUnmoved seen s.participants
      → IsOnce s.participants
      → IsOnce (enroll_named casl subject caller event name festive now seen s).1.participants
  enroll_named-IsOnce caller event none festive now seen s safe once =
      enroll-IsOnce subject event caller.user festive now seen s safe once
  enroll_named-IsOnce caller event (some uuid) festive now seen s safe once =
      elim (Bool-cases (on_behalf uuid caller.user)) [
        | inr own ↦ rw own (enroll-IsOnce subject event caller.user festive now seen s safe once)
        | inl other ↦ elim (Bool-cases (may_manage casl subject caller)) [
          | inr barred ↦ rw (other, barred) once
          | inl right ↦ elim (Option-cases (find_user uuid s.users)) [
            | inl unknown ↦ rw (other, right, unknown) once
            | inr (target, known) ↦
                rw (other, right, known)
                  (enroll-IsOnce subject event target festive now seen s safe once)
          ]
        ]
      ]

  -- A request that comes to create a row for the caller.
  abbrev enrolled : Caller → EventRow → Bool → ℕ → EventTables → EventTables
  enrolled caller event festive now s = record s {
    participants = s.participants ++ new_participant s.next_id event caller.user festive now ∷ [];
    next_id = suc s.next_id;
  }

  register-enrolled :
      (caller : Caller) (uuid : String) (festive : Bool) (now : ℕ) (seen : List EventParticipant)
      (s : EventTables) (event : EventRow)
      → find_visible_event uuid s.events ≡ some event
      → find (is_registration event.id caller.user.id) seen ≡ none
      → (has_unique_key subject
          && is_some (find (is_registration event.id caller.user.id) s.participants))
        ≡ false
      → register casl subject caller uuid none festive now seen s ≡ (
        registered_reply subject 201 caller.user festive false,
        enrolled caller event festive now s,
      )
  unfolding register
  register-enrolled caller uuid festive now seen s event visible unseen free =
      rw (visible, register, enroll, unseen, free) refl

  -- Two requests of a member of whom both look-ups have found no registration.
  register-race :
      (caller : Caller) (uuid : String) (festive : Bool) (now : ℕ) (s : EventTables)
      (event : EventRow)
      → has_unique_key subject ≡ false
      → find_visible_event uuid s.events ≡ some event
      → find (is_registration event.id caller.user.id) s.participants ≡ none
      → let s1 = (register casl subject caller uuid none festive now s.participants s).1 in
        let s2 = (register casl subject caller uuid none festive now s.participants s1).1 in
        count_where (is_registration event.id caller.user.id) s2.participants ≡ 2
  register-race caller uuid festive now s event keyless visible free =
      let p = is_registration event.id caller.user.id in
      let s1 = enrolled caller event festive now s in
      let row = new_participant s.next_id event caller.user festive now in
      let next = new_participant (suc s.next_id) event caller.user festive now in
      let own : p row ≡ true =
        ground (arith, nat_beq_iff event.id event.id, nat_beq_iff caller.user.id caller.user.id) in
      let first = count_where-append p s.participants (row ∷ []) in
      let second = count_where-append p s1.participants (next ∷ []) in
      let start = count-none p s.participants free in
      let step = register-enrolled caller uuid festive now s.participants in
      rw (step s event visible free (rw keyless refl)) (
        rw (step s1 event visible free (rw keyless refl))
          (ground (arith, own, first, second, start)))

  -- Between the look-up of a registration and its creation other requests may come. For the events of
  -- other lodges, whose table has a unique key, no member comes to have two rows for one event
  -- whatever they do; for the lodge's own, none does unless one of them has registered somebody in
  -- the meantime; and two requests of a member that both look before either creates leave two rows
  -- there. A withdrawal leaves no member with two rows.
  pub register-IsOnce :
      (caller : Caller) (uuid : String) (user_uuid : Option String) (festive : Bool) (now : ℕ)
      (user_text : String) (seen : List EventParticipant) (s : EventTables)
      → IsOnce s.participants
      → ((has_unique_key subject ≡ true) ⊎ IsUnmoved seen s.participants
          → IsOnce (register casl subject caller uuid user_uuid festive now seen s).1.participants)
        × IsOnce (unregister casl subject caller uuid user_text s).1.participants
        × ((event : EventRow)
            → has_unique_key subject ≡ false
            → find_visible_event uuid s.events ≡ some event
            → find (is_registration event.id caller.user.id) s.participants ≡ none
            → let s1 = (register casl subject caller uuid none festive now s.participants s).1 in
              let s2 = (register casl subject caller uuid none festive now s.participants s1).1 in
              count_where (is_registration event.id caller.user.id) s2.participants ≡ 2)
  unfolding register unregister
  register-IsOnce caller uuid user_uuid festive now user_text seen s once =
      elim (Option-cases (find_visible_event uuid s.events)) [
        | inl hidden ↦ (
          (λ safe. rw (hidden, register) once),
          rw (hidden, unregister) once,
          register-race caller uuid festive now s,
        )
        | inr (event, visible) ↦ (
          (λ safe.
              rw (visible, register)
                (enroll_named-IsOnce caller event (named_uuid user_uuid) festive now seen s safe
                  once)),
          rw (visible, unregister)
              (elim (Bool-cases
                (on_behalf user_text caller.user && not (may_manage casl subject caller))) [
                  | inl barred ↦ rw barred once
                  | inr free ↦ rw free (withdraw-IsOnce event user_text s once)
                ]),
          register-race caller uuid festive now s,
        )
      ]

-- Taking away the row that was added last, by its id.
select-new :
    (rows : List EventParticipant) (row : EventParticipant)
    → All (λ r. r.id ≢ row.id) rows
    → select (λ r. not (r.id == row.id)) (rows ++ row ∷ []) ≡ rows
select-new [] row h = ground (arith, nat_beq_iff row.id row.id)
select-new (r ∷ rows) row (ne, h) = ground (arith, nat_beq_iff r.id row.id, select-new rows row h)

module _ (casl : Casl) (subject : SubjectName) where
  -- A member who is not registered for an event can register, and whoever registers and then takes
  -- it back leaves the table as it was.
  pub register-unregister :
      (caller : Caller) (uuid own : String) (festive : Bool) (now : ℕ) (s : EventTables)
      (event : EventRow)
      → find_visible_event uuid s.events ≡ some event
      → caller.user.uuid ≡ some own
      → find_user own s.users ≡ some caller.user
      → All (λ r. r.id ≢ s.next_id) s.participants
      → find (is_registration event.id caller.user.id) s.participants ≡ none
      → let (reply, s') = register casl subject caller uuid none festive now s.participants s in
        let (last, s2) = unregister casl subject caller uuid own s' in
        (reply.status ≡ 201)
        × (find (is_registration event.id caller.user.id) s'.participants
            ≡ some (new_participant s.next_id event caller.user festive now))
        × (last.status ≡ 204)
        × (s2.participants ≡ s.participants)
  unfolding register unregister enroll withdraw
  register-unregister caller uuid own festive now s event seen named known fresh absent =
      let row = new_participant s.next_id event caller.user festive now in
      let s1 = enrolled casl subject caller event festive now s in
      let done =
        register-enrolled casl subject caller uuid festive now s.participants s event seen absent
          (rw (absent, and-false (has_unique_key subject)) refl) in
      let fits : is_registration event.id caller.user.id row ≡ true =
        ground (arith, nat_beq_iff event.id event.id, nat_beq_iff caller.user.id caller.user.id) in
      let there : find (is_registration event.id caller.user.id) s1.participants ≡ some row =
        find-append_none (is_registration event.id caller.user.id) s.participants (row ∷ []) absent
        ∙ rw fits refl in
      let same : on_behalf own caller.user ≡ false = rw (named, eq_refl own) refl in
      let undone : unregister casl subject caller uuid own s1 ≡ (
        plain 204 empty,
        record s1 { participants = select (λ r. not (r.id == row.id)) s1.participants },
      ) =
        rw (seen, unregister, same, known, withdraw, there) refl in
      rw (done, undone) (refl, there, refl, select-new s.participants row fresh)
