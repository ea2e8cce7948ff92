-- ===== src/Calendar/Schedule/Sources.antt =====
-- A calendar that cannot be read does not hold up the others.
use intern_logenhelfer_de.Base.{
  ℕ, ◌≡◌, refl, ap, ◌∙◌, String, Bool, ◌&&◌, Option, List, [], ◌∷◌, select, select-select, map,
  is_some, Option-cases, inl, inr,
}
use intern_logenhelfer_de.Calendar.Sync.{ParsedIcsEvent, Events}
use intern_logenhelfer_de.Calendar.Schedule.{
  SourceRow, is_active, sync_each, sync_all_active_ics_sources,
}

module _ (feed : SourceRow → Option (List (ParsedIcsEvent × String))) (now : ℕ) where
  abbrev pub is_readable : SourceRow → Bool
  is_readable r = is_some (feed r)

  sync_each-readable :
      (rows : List SourceRow) (es : Events)
      → (sync_each feed now rows es).1 ≡ (sync_each feed now (select is_readable rows) es).1
  unfolding sync_each
  sync_each-readable [] es = refl
  sync_each-readable (r ∷ rows) es = elim (Option-cases (feed r)) [
    | inl broken ↦ rw (broken, sync_each) (sync_each-readable rows es)
    | inr (events, read) ↦ rw (read, sync_each, read) (sync_each-readable rows _)
  ]

  sync_each-ids :
      (rows : List SourceRow) (es : Events)
      → map (λ o. o.id) (sync_each feed now rows es).0 ≡ map (λ r. r.source.id) rows
  unfolding sync_each
  sync_each-ids [] es = refl
  sync_each-ids (r ∷ rows) es = elim (Option-cases (feed r)) [
    | inl broken ↦ rw (broken, sync_each) (ap (λ ids. r.source.id ∷ ids) (sync_each-ids rows es))
    | inr (events, read) ↦
        rw (read, sync_each) (ap (λ ids. r.source.id ∷ ids) (sync_each-ids rows _))
  ]

  -- The events after a run are those that a run over the calendars alone that are active and can be
  -- read would have left, and every active calendar has its outcome, in order.
  pub sync_all_active_ics_sources_lem :
      (rows : List SourceRow) (es : Events)
      → let (outcomes, after) = sync_all_active_ics_sources feed now rows es in
        (after ≡ (sync_each feed now (select (λ r. is_active r && is_readable r) rows) es).1)
        × (map (λ o. o.id) outcomes ≡ map (λ r. r.source.id) (select is_active rows))
  unfolding sync_all_active_ics_sources
  sync_all_active_ics_sources_lem rows es = (
    sync_each-readable (select is_active rows) es
        ∙ ap (λ chosen. (sync_each feed now chosen es).1)
            (select-select is_readable is_active rows),
    sync_each-ids (select is_active rows) es,
  )
