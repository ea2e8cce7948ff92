-- ===== src/Events/Foreign/Imported.antt =====
-- The events of a calendar are its own.
use intern_logenhelfer_de.Base.{
  List-cases, ℕ, ◌≡◌, refl, ap, ◌∙◌, String, Bool, false, Option, none, some, List, [], ◌∷◌, ◌++◌,
  ◌==◌, nat_eq, nat_beq_iff, find, any, select, update_where, arith, All, HasKeys, find_unique,
  All-map, Bool-cases, Option-cases, inl, inr,
}
use intern_logenhelfer_de.External.{External}
use intern_logenhelfer_de.Authz.Rules.{Casl, create, update, destroy, external_event}
use intern_logenhelfer_de.Helpers.Uuid.{generate_unique_uuid}
use intern_logenhelfer_de.Members.Access.{class}
use intern_logenhelfer_de.Members.Accounts.{Caller}
use intern_logenhelfer_de.Events.Registration.{is_text}
use intern_logenhelfer_de.Events.Foreign.{
  ForeignEvent, ForeignBody, ForeignEvents, ForeignReply, is_imported, find_visible_external_event,
  validate_external_event, draft_of, draft_on, create_external_event, patch_external_event,
  delete_external_event, hidden_event,
}

-- The rows that come from a calendar.
abbrev pub imported : List ForeignEvent → List ForeignEvent
imported rows = select is_imported rows

-- An update of rows that are not imported.
imported-update :
    (f : ForeignEvent → ForeignEvent) (id : ℕ) (rows : List ForeignEvent)
    → ((r : ForeignEvent) → is_imported (f r) ≡ is_imported r)
    → All (λ r. r.id ≡ id → is_imported r ≡ false) rows
    → imported (update_where (λ r. r.id == id) f rows) ≡ imported rows
imported-update f id [] keeps manual = refl
imported-update f id (r ∷ rows) keeps (own, manual) =
    let rest = imported-update f id rows keeps manual in
    elim (Bool-cases (r.id == id)) [
      | inr miss ↦ rw (miss, rest) refl
      | inl hit ↦
          let here = own ((nat_beq_iff r.id id).0 hit) in
          let there = keeps r in rw (hit, there, here, rest) refl
    ]

manual_rows :
    (p : ForeignEvent → Bool) (rows : List ForeignEvent) (e : ForeignEvent)
    → HasKeys (λ r. r.id) rows
    → find p rows ≡ some e
    → is_imported e ≡ false
    → All (λ r. r.id ≡ e.id → is_imported r ≡ false) rows
manual_rows p rows e keyed found manual =
    All-map (λ r. r.id ≡ e.id → r ≡ e) (λ r same h. ap is_imported (same h) ∙ manual) rows
      (find_unique (λ r. r.id) p rows e keyed found)

-- The outcome of a creation, if it has come to one, leaves the imported rows alone.
abbrev pub KeepsImported : ForeignEvents → Option (ForeignReply × ForeignEvents) → Type 0
KeepsImported s none = Unit
KeepsImported s (some (reply, s')) = imported s'.rows ≡ imported s.rows

imported-new :
    (rows : List ForeignEvent) (e : ForeignEvent)
    → is_imported e ≡ false
    → imported (rows ++ e ∷ []) ≡ imported rows
imported-new [] e manual = rw manual refl
imported-new (r ∷ rows) e manual = ground (arith, imported-new rows e manual)

-- No request to create, change or remove an event touches one that a calendar has brought in, and
-- none adds to them; whoever asks, and whatever for.
pub imported_kept :
    (x : External) (casl : Casl) (caller : Caller) (uuid : String) (body : ForeignBody)
    (draws : List String) (now : ℕ) (s : ForeignEvents)
    → HasKeys (λ r. r.id) s.rows
    → KeepsImported s (create_external_event x casl caller body draws now s)
      × (imported (patch_external_event x casl caller uuid body now s).1.rows ≡ imported s.rows)
      × (imported (delete_external_event x casl caller uuid s).1.rows ≡ imported s.rows)
unfolding create_external_event patch_external_event delete_external_event
imported_kept x casl caller uuid body draws now s keyed = (
  elim (Bool-cases (casl.can caller.ability create (class external_event))) [
    | inr barred ↦ rw (create_external_event, barred) refl
    | inl right ↦ elim (List-cases (validate_external_event (draft_of x body))) [
      | inr (error, rest, wrong) ↦ rw (create_external_event, right, wrong) refl
      | inl valid ↦
          elim (Option-cases
            (generate_unique_uuid (λ id. any (λ e. is_text id e.uuid) s.rows) draws)) [
              | inl drawing ↦ rw (create_external_event, right, valid, drawing) tt
              | inr (id, drawn) ↦
                  rw (create_external_event, right, valid, drawn) (imported-new s.rows _ refl)
            ]
    ]
  ],
  elim (Option-cases (find_visible_external_event uuid s.rows)) [
    | inl hidden ↦ rw (hidden, patch_external_event) refl
    | inr (e, seen) ↦ elim (Bool-cases (casl.can caller.ability update (class external_event))) [
      | inr barred ↦ rw (seen, patch_external_event, barred) refl
      | inl right ↦ elim (Bool-cases (is_imported e)) [
        | inl foreign ↦ rw (seen, patch_external_event, right, foreign) refl
        | inr manual ↦ elim (List-cases (validate_external_event (draft_on x body e))) [
          | inr (error, rest, wrong) ↦ rw (seen, patch_external_event, right, manual, wrong) refl
          | inl valid ↦
              rw (seen, patch_external_event, right, manual, valid)
                (imported-update _ e.id s.rows (λ r. refl)
                  (manual_rows _ s.rows e keyed seen manual))
        ]
      ]
    ]
  ],
  elim (Option-cases (find_visible_external_event uuid s.rows)) [
    | inl hidden ↦ rw (hidden, delete_external_event) refl
    | inr (e, seen) ↦ elim (Bool-cases (casl.can caller.ability destroy (class external_event))) [
      | inr barred ↦ rw (seen, delete_external_event, barred) refl
      | inl right ↦ elim (Bool-cases (is_imported e)) [
        | inl foreign ↦ rw (seen, delete_external_event, right, foreign) refl
        | inr manual ↦
            rw (seen, delete_external_event, right, manual)
              (imported-update hidden_event e.id s.rows (λ r. refl)
                (manual_rows _ s.rows e keyed seen manual))
      ]
    ]
  ],
)
