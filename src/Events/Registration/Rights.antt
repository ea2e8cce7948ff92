-- ===== src/Events/Registration/Rights.antt =====
-- Whose registrations a member can change.
use intern_logenhelfer_de.Base.{
  ℕ, ◌≡◌, ◌≢◌, refl, ap, sym, ◌∙◌, String, Bool, true, false, not, ◌&&◌, is_some, Option, none,
  some, List, [], ◌∷◌, ◌++◌, ◌==◌, nat_eq, nat_beq_iff, eq_iff, string_eq, find, find-fits, select,
  update_where, arith, All, All-map, HasKeys, find_unique, Bool-cases, Option-cases, inl, inr,
  subst,
}
use intern_logenhelfer_de.Store.{User}
use intern_logenhelfer_de.Authz.Rules.{Casl, SubjectName, is_number, external_event_participant}
use intern_logenhelfer_de.Members.Accounts.{Caller, forbidden}
use intern_logenhelfer_de.Http.{Reply}
use intern_logenhelfer_de.Events.Registration.{
  EventRow, EventParticipant, EventTables, find_visible_event, find_user, is_registration,
  named_uuid, on_behalf, has_unique_key, new_participant, enroll, withdraw, may_manage,
  enroll_named, register, unregister, confirm, confirmed, not_found,
}

-- The rows of everyone but one user.
abbrev pub others : ℕ → List EventParticipant → List EventParticipant
others user_id rows = select (λ r. not (is_number user_id r.user_id)) rows

others-new :
    (user_id : ℕ) (rows : List EventParticipant) (row : EventParticipant)
    → is_number user_id row.user_id ≡ true
    → others user_id (rows ++ row ∷ []) ≡ others user_id rows
others-new user_id [] row own = ground arith
others-new user_id (r ∷ rows) row own = ground (arith, others-new user_id rows row own)

-- Rows of the user alone go.
others-select :
    (user_id id : ℕ) (rows : List EventParticipant)
    → All (λ r. r.id ≡ id → is_number user_id r.user_id ≡ true) rows
    → others user_id (select (λ r. not (r.id == id)) rows) ≡ others user_id rows
others-select user_id id [] own = refl
others-select user_id id (r ∷ rows) (mine, own) =
    let rest = others-select user_id id rows own in
    elim (Bool-cases (r.id == id)) [
      | inl gone ↦ let here = mine ((nat_beq_iff r.id id).0 gone) in rw (gone, here) rest
      | inr kept ↦ rw (kept, rest) refl
    ]

others-removed :
    (user_id event_id : ℕ) (rows : List EventParticipant) (p : EventParticipant)
    → HasKeys (λ r. r.id) rows
    → find (is_registration event_id user_id) rows ≡ some p
    → others user_id (select (λ r. not (r.id == p.id)) rows) ≡ others user_id rows
others-removed user_id event_id rows p keyed found =
    let fits = find-fits (is_registration event_id user_id) rows p found in
    let own : is_number user_id p.user_id ≡ true = ground arith in
    others-select user_id p.id rows (
      All-map (λ r. r.id ≡ p.id → r ≡ p)
        (λ r same h. ap (λ (q : EventParticipant). is_number user_id q.user_id) (same h) ∙ own) rows
        (find_unique (λ r. r.id) (is_registration event_id user_id) rows p keyed found))

others-enroll :
    (subject : SubjectName) (event : EventRow) (target : User) (festive : Bool) (now : ℕ)
    (seen : List EventParticipant) (s : EventTables)
    → others target.id (enroll subject event target festive now seen s).1.participants
      ≡ others target.id s.participants
unfolding enroll
others-enroll subject event target festive now seen s =
    let row = new_participant s.next_id event target festive now in
    elim (Option-cases (find (is_registration event.id target.id) seen)) [
      | inr (r, there) ↦ rw there refl
      | inl free ↦
          elim (Bool-cases (
            has_unique_key subject
            && is_some (find (is_registration event.id target.id) s.participants))) [
              | inl taken ↦ rw (free, taken) refl
              | inr fresh ↦
                  rw (free, fresh)
                    (others-new target.id s.participants row
                      (ground (arith, nat_beq_iff target.id target.id)))
            ]
    ]

others-withdraw :
    (event : EventRow) (user_uuid : String) (target : User) (s : EventTables)
    → find_user user_uuid s.users ≡ some target
    → HasKeys (λ r. r.id) s.participants
    → others target.id (withdraw event user_uuid s).1.participants ≡ others target.id s.participants
unfolding withdraw
others-withdraw event user_uuid target s known keyed =
    elim (Option-cases (find (is_registration event.id target.id) s.participants)) [
      | inl absent ↦ rw (known, withdraw, absent) refl
      | inr (p, there) ↦
          rw (known, withdraw, there)
            (others-removed target.id event.id s.participants p keyed there)
    ]

module _ (casl : Casl) (subject : SubjectName) where
  others-enroll_named :
      (caller : Caller) (event : EventRow) (name : Option String) (festive : Bool) (now : ℕ)
      (seen : List EventParticipant) (s : EventTables)
      → may_manage casl subject caller ≡ false
      → others caller.user.id
          (enroll_named casl subject caller event name festive now seen s).1.participants
        ≡ others caller.user.id s.participants
  others-enroll_named caller event none festive now seen s barred =
      others-enroll subject event caller.user festive now seen s
  others-enroll_named caller event (some uuid) festive now seen s barred =
      elim (Bool-cases (on_behalf uuid caller.user)) [
        | inr own ↦ rw own (others-enroll subject event caller.user festive now seen s)
        | inl other ↦ rw (other, barred) refl
      ]

  others-unregister :
      (caller : Caller) (event : EventRow) (uuid user_text own : String) (s : EventTables)
      → find_visible_event uuid s.events ≡ some event
      → may_manage casl subject caller ≡ false
      → caller.user.uuid ≡ some own
      → find_user own s.users ≡ some caller.user
      → HasKeys (λ r. r.id) s.participants
      → others caller.user.id (unregister casl subject caller uuid user_text s).1.participants
        ≡ others caller.user.id s.participants
  unfolding unregister
  others-unregister caller event uuid user_text own s seen barred named known keyed =
      elim (Bool-cases (on_behalf user_text caller.user)) [
        | inl other ↦ rw (seen, unregister, other, barred) refl
        | inr self ↦
            let equal : (own == user_text) ≡ true = ground (arith, named) in
            let same = (eq_iff own user_text).0 equal in
            rw (seen, unregister, self)
              (others-withdraw event user_text caller.user s (rw same at known) keyed)
      ]

  -- A member without the right to manage registrations changes no registration but the own ones,
  -- whichever event, member and request it is; who is registered stays told by the rows of the
  -- others, each as it was. What other requests have done since the look-up makes no difference.
  pub registration_rights :
      (caller : Caller) (uuid own : String) (user_uuid : Option String) (festive : Bool) (now : ℕ)
      (user_text : String) (seen : List EventParticipant) (s : EventTables)
      → may_manage casl subject caller ≡ false
      → caller.user.uuid ≡ some own
      → find_user own s.users ≡ some caller.user
      → HasKeys (λ r. r.id) s.participants
      → let id = caller.user.id in
        let registered = (register casl subject caller uuid user_uuid festive now seen s).1 in
        let withdrawn = (unregister casl subject caller uuid user_text s).1 in
        (others id registered.participants ≡ others id s.participants)
        × (others id withdrawn.participants ≡ others id s.participants)
  unfolding register unregister
  registration_rights caller uuid own user_uuid festive now user_text seen s barred named known
        keyed =
      elim (Option-cases (find_visible_event uuid s.events)) [
        | inl hidden ↦ (rw (hidden, register) refl, rw (hidden, unregister) refl)
        | inr (event, visible) ↦ (
          rw (visible, register)
              (others-enroll_named caller event (named_uuid user_uuid) festive now seen s barred),
          others-unregister caller event uuid user_text own s visible barred named known keyed,
        )
      ]

-- What a confirmation must be that ends with a reply and a state.
abbrev pub IsConfirmation :
    Casl → Caller → String → String → ℕ → EventTables → Reply × EventTables → Type 0
IsConfirmation casl caller uuid user_uuid now s (reply, s') =
    (may_manage casl external_event_participant caller ≡ false → s' ≡ s)
    × (reply.status ≢ 200 → s' ≡ s)
    × (reply.status ≡ 200
        → (event : EventRow) × (target : User) × (p : EventParticipant) × (may_manage casl
              external_event_participant caller
            ≡ true)
          × (find_visible_event uuid s.events ≡ some event)
          × (find_user user_uuid s.users ≡ some target)
          × (find (is_registration event.id target.id) s.participants ≡ some p)
          × (s' ≡ record s {
            participants = update_where (λ r. r.id == p.id) (confirmed now) s.participants;
          }))

IsConfirmation-refused :
    (casl : Casl) (caller : Caller) (uuid user_uuid : String) (now : ℕ) (s : EventTables)
    (reply : Reply)
    → reply.status ≢ 200
    → confirm casl caller uuid user_uuid now s ≡ (reply, s)
    → IsConfirmation casl caller uuid user_uuid now s (confirm casl caller uuid user_uuid now s)
IsConfirmation-refused casl caller uuid user_uuid now s reply ne same =
    subst (IsConfirmation casl caller uuid user_uuid now s) (sym same)
      ((λ _. refl), (λ _. refl), (λ h. absurd (ne h)))

-- A registration is confirmed by those alone who may manage them: anyone else, the member in
-- question included, changes nothing, and so does every request that is not answered with 200. One
-- that is has changed the row of that member and that event.
pub confirm_lem :
    (casl : Casl) (caller : Caller) (uuid user_uuid : String) (now : ℕ) (s : EventTables)
    → IsConfirmation casl caller uuid user_uuid now s (confirm casl caller uuid user_uuid now s)
unfolding confirm
confirm_lem casl caller uuid user_uuid now s =
    let may = may_manage casl external_event_participant caller in
    let refused = IsConfirmation-refused casl caller uuid user_uuid now s in
    elim (Option-cases (find_visible_event uuid s.events)) [
      | inl hidden ↦ refused not_found (λ h. omega (arith, h)) (rw (hidden, confirm) refl)
      | inr (event, seen) ↦ elim (Bool-cases may) [
        | inr barred ↦ refused forbidden (λ h. omega (arith, h)) (rw (seen, confirm, barred) refl)
        | inl right ↦ elim (Option-cases (find_user user_uuid s.users)) [
          | inl unknown ↦
              refused not_found (λ h. omega (arith, h)) (rw (seen, confirm, right, unknown) refl)
          | inr (target, known) ↦
              elim (Option-cases (find (is_registration event.id target.id) s.participants)) [
                | inl absent ↦
                    refused not_found (λ h. omega (arith, h))
                      (rw (seen, confirm, right, known, absent) refl)
                | inr (p, there) ↦ (
                  (λ no. absurd (cc)),
                  rw (seen, confirm, right, known, there) (λ ne. absurd (ne refl)),
                  (λ _. (
                    event,
                    target,
                    p,
                    right,
                    seen,
                    known,
                    there,
                    rw (seen, confirm, right, known, there) refl,
                  )),
                )
              ]
        ]
      ]
    ]
