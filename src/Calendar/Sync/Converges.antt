-- ===== src/Calendar/Sync/Converges.antt =====
-- After a sync the active events of a source are those of its feed.
use mathlib.Core.Bool.{or-false, and-false}
use intern_logenhelfer_de.Base.{
  ℕ, ◌≡◌, ◌≢◌, refl, sym, ap, ◌∙◌, subst, String, Bool, true, false, not, ◌&&◌, ◌||◌, Option, none,
  some, List, [], ◌∷◌, find, select, update_where, any, any-append, All, ◌==◌, nat_eq, string_eq,
  if◌then◌else◌, arith, eq_iff, Bool-cases, Option-cases, inl, inr, nat_beq_iff, update_absent,
}
use intern_logenhelfer_de.Authz.Rules.{is_number}
use intern_logenhelfer_de.Calendar.Sync.{
  ParsedIcsEvent, ExternalEvent, Source, Events, IcsSyncResult, is_text, comes_from, refreshed,
  new_event, upsert_event, upsert_events, uids, has_text, is_active, not_seen, is_stale,
  mark_deleted, remove_stale, sync_external_event_ics_source, counted,
}
use intern_logenhelfer_de.Calendar.Sync.Keys.{
  IsKeyed, IsValid, find_other, update-chosen, update_where-IsValid, append-IsValid,
}

-- The event of this uid that the source shows.
abbrev pub shows : Source → String → ExternalEvent → Bool
shows source uid e = comes_from source uid e && is_active e

same_uid : (t u : String) (o : Option String) → is_text t o ≡ true → is_text u o ≡ (t == u)
same_uid t u none h = cc
same_uid t u (some v) h = ap (λ w. w == u) ((eq_iff v t).0 h)

or_assoc' : (a b c : Bool) → (a || (b || c)) ≡ ((a || b) || c)
or_assoc' true b c = refl
or_assoc' false b c = refl

shown_again : (act w a : Bool) → (w && true || a) ≡ ((w && act || a) || w)
shown_again true true a = refl
shown_again true false true = refl
shown_again true false false = refl
shown_again false true true = refl
shown_again false true false = refl
shown_again false false true = refl
shown_again false false false = refl

fitting_row :
    (source : Source) (p : ParsedIcsEvent) (now : ℕ) (u : String) (d : ExternalEvent)
    (rows : List ExternalEvent)
    → All (λ c. c.id ≢ d.id) rows
    → comes_from source p.uid d ≡ true
    → any (shows source u) (update_where (λ a. a.id == d.id) (refreshed p now) (d ∷ rows))
      ≡ (any (shows source u) (d ∷ rows) || p.uid == u)
fitting_row source p now u d rows ne fits =
    let own : is_number source.id d.ics_source_id ≡ true = ground arith in
    let known : is_text p.uid d.ics_uid ≡ true = ground arith in
    let id_same : (d.id == d.id) ≡ true = (nat_beq_iff d.id d.id).1 refl in
    rw
      (
        id_same,
        update_absent (λ e. e.id) (refreshed p now) d.id rows ne,
        own,
        same_uid p.uid u d.ics_uid known,
      )
      (shown_again (is_active d) (p.uid == u) (any (shows source u) rows))

upsert_row :
    (source : Source) (p : ParsedIcsEvent) (now : ℕ) (u : String) (rows : List ExternalEvent)
    (e : ExternalEvent)
    → IsKeyed rows
    → find (comes_from source p.uid) rows ≡ some e
    → any (shows source u) (update_where (λ d. d.id == e.id) (refreshed p now) rows)
      ≡ (any (shows source u) rows || p.uid == u)
upsert_row source p now u [] e k found = cc
upsert_row source p now u (d ∷ rows) e (ne, k) found =
    elim (Bool-cases (comes_from source p.uid d)) [
      | inl fits ↦
          let same : d ≡ e = ground arith in
          subst
            (λ c.
              any (shows source u) (update_where (λ a. a.id == c.id) (refreshed p now) (d ∷ rows))
              ≡ (any (shows source u) (d ∷ rows) || p.uid == u))
            same (fitting_row source p now u d rows ne fits)
      | inr other ↦
          let apart = find_other (comes_from source p.uid) d.id rows e ne (ground arith) in
          let unlike : (d.id == e.id) ≡ false = ground arith in
          rw (unlike, upsert_row source p now u rows e k (ground arith))
            (or_assoc' (shows source u d) (any (shows source u) rows) (p.uid == u))
    ]

new_shown : (a w : Bool) → (a || (w && true || false)) ≡ (a || w)
new_shown a true = refl
new_shown a false = refl

spread : (a b c : Bool) → (a && c || b && c) ≡ ((a || b) && c)
spread true true true = refl
spread true true false = refl
spread true false true = refl
spread true false false = refl
spread false b c = refl

absorb : (a b : Bool) → ((a || b) && b) ≡ b
absorb true b = refl
absorb false true = refl
absorb false false = refl

-- A feed's event shows after its upsert, and every other event as before.
upsert-shows :
    (source : Source) (p : ParsedIcsEvent) (uuid : String) (now : ℕ) (u : String) (es : Events)
    → IsValid es
    → let es' = (upsert_event source p uuid now es).1 in
      (any (shows source u) es'.rows ≡ (any (shows source u) es.rows || p.uid == u)) × IsValid es'
unfolding upsert_event
upsert-shows source p uuid now u es v =
    elim (Option-cases (find (comes_from source p.uid) es.rows)) [
      | inl unknown ↦
          rw (unknown, upsert_event)
            (
              any-append (shows source u) es.rows _
                  ∙ rw ((nat_beq_iff source.id source.id).1 refl)
                      (new_shown (any (shows source u) es.rows) (p.uid == u)),
              append-IsValid es (new_event source p uuid now es.next_id) refl v,
            )
      | inr (e, found) ↦
          rw (found, upsert_event)
            (
              upsert_row source p now u es.rows e v.keyed found,
              update_where-IsValid (λ d. d.id == e.id) (refreshed p now) (λ d. refl) es v,
            )
    ]

upserts-shows :
    (source : Source) (feed : List (ParsedIcsEvent × String)) (now : ℕ) (u : String)
    (r : IcsSyncResult) (es : Events)
    → IsValid es
    → let es' = (upsert_events source feed now (r, es)).1 in
      (any (shows source u) es'.rows ≡ (any (shows source u) es.rows || has_text (uids feed) u))
      × IsValid es'
unfolding upsert_events
upserts-shows source [] now u r es v = (sym (or-false (any (shows source u) es.rows)), v)
upserts-shows source ((p, uuid) ∷ feed) now u r es v =
    let (created, es1) = upsert_event source p uuid now es in
    let (one, v1) = upsert-shows source p uuid now u es v in
    let (more, v2) = upserts-shows source feed now u (counted created r) es1 v1 in
    (
      more
          ∙ ap (λ b. b || has_text (uids feed) u) one
          ∙ sym (or_assoc' (any (shows source u) es.rows) (p.uid == u) (has_text (uids feed) u)),
      v2,
    )

seen_text :
    (seen : List String) (u : String) (o : Option String)
    → is_text u o ≡ true
    → not_seen seen o ≡ not (has_text seen u)
seen_text [] u o h = refl
seen_text (t ∷ seen) u none h = cc
seen_text (t ∷ seen) u (some v) h = ap (λ w. not (has_text (t ∷ seen) w)) ((eq_iff v u).0 h)

deleted_hidden :
    (source : Source) (u : String) (e : ExternalEvent) → shows source u (mark_deleted e) ≡ false
deleted_hidden source u e = and-false (comes_from source u e)

shown_row :
    (source : Source) (u : String) (e : ExternalEvent)
    → shows source u e ≡ true
    → (kept : Bool)
    → shows source u (if not kept then mark_deleted e else e) ≡ (shows source u e && kept)
shown_row source u e shown true = rw shown refl
shown_row source u e shown false = deleted_hidden source u e ∙ sym (and-false (shows source u e))

hidden_row :
    (source : Source) (u : String) (e : ExternalEvent) (stale kept : Bool)
    → shows source u e ≡ false
    → shows source u (if stale then mark_deleted e else e) ≡ (shows source u e && kept)
hidden_row source u e true kept hidden =
    deleted_hidden source u e ∙ sym (ap (λ b. b && kept) hidden)
hidden_row source u e false kept hidden = hidden ∙ sym (ap (λ b. b && kept) hidden)

-- A row that shows an event is stale exactly when the feed does not have it.
stale_row :
    (source : Source) (seen : List String) (u : String) (e : ExternalEvent)
    → shows source u (if is_stale source seen e then mark_deleted e else e)
      ≡ (shows source u e && has_text seen u)
stale_row source seen u e = elim (Bool-cases (shows source u e)) [
  | inl shown ↦
      let own : is_number source.id e.ics_source_id ≡ true = ground arith in
      let known : is_text u e.ics_uid ≡ true = ground arith in
      let active : is_active e ≡ true = ground arith in
      let stale : is_stale source seen e ≡ not (has_text seen u) =
        rw (own, active) (seen_text seen u e.ics_uid known) in
      rw stale (shown_row source u e shown (has_text seen u))
  | inr hidden ↦ hidden_row source u e (is_stale source seen e) (has_text seen u) hidden
]

stale_rows :
    (source : Source) (seen : List String) (u : String) (rows : List ExternalEvent)
    → any (shows source u) (update_where (is_stale source seen) mark_deleted rows)
      ≡ (any (shows source u) rows && has_text seen u)
stale_rows source seen u [] = refl
stale_rows source seen u (e ∷ rows) =
    rw (stale_row source seen u e, stale_rows source seen u rows)
      (spread (shows source u e) (any (shows source u) rows) (has_text seen u))

-- After a sync a source shows exactly the events of its feed, by their uids, whatever it showed
-- before; an empty feed leaves none. The table stays well-formed.
pub sync_external_event_ics_source_lem :
    (source : Source) (feed : List (ParsedIcsEvent × String)) (now : ℕ) (u : String) (es : Events)
    → IsValid es
    → let es' = (sync_external_event_ics_source source feed now es).1 in
      (any (shows source u) es'.rows ≡ has_text (uids feed) u) × IsValid es'
unfolding sync_external_event_ics_source remove_stale
sync_external_event_ics_source_lem source feed now u es v =
    let start : IcsSyncResult = record { created = 0; updated = 0; removed = 0 } in
    let es1 = (upsert_events source feed now (start, es)).1 in
    let (shown, v1) = upserts-shows source feed now u start es v in
    let p = is_stale source (uids feed) in
    (
      ap (any (shows source u)) (update-chosen p mark_deleted es1.rows v1.keyed)
          ∙ stale_rows source (uids feed) u es1.rows
          ∙ ap (λ b. b && has_text (uids feed) u) shown
          ∙ absorb (any (shows source u) es.rows) (has_text (uids feed) u),
      update_where-IsValid (λ e. any (λ q. q.id == e.id) (select p es1.rows)) mark_deleted
          (λ e. refl) es1 v1,
    )
