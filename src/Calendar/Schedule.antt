-- ===== src/Calendar/Schedule.antt =====
-- The background import of all calendars: api/src/lib/icsSyncScheduler.ts, and
-- syncAllActiveIcsSources of api/src/lib/externalEventIcsSync.ts.
pub mod Interval
pub mod Sources
use intern_logenhelfer_de.Base.{
  ℕ, suc, ◌*◌, String, Bool, true, false, not, ◌&&◌, ◌||◌, Option, none, some, List, [], ◌∷◌,
  select, leb, ltb, ◌==◌, string_eq, if◌then◌else◌, is_some,
}
use Prim.Native.String
use intern_logenhelfer_de.Authz.Ability.{is_true}
use intern_logenhelfer_de.Helpers.Pagination.{ℤ, pos, negsuc, ruby_to_i}
use intern_logenhelfer_de.Calendar.Sync.{
  is_text, ParsedIcsEvent, Source, Events, IcsSyncResult, sync_external_event_ics_source,
}

abbrev pub default_interval_hours : ℕ
default_interval_hours = 24

abbrev pub positive_or_default : ℤ → ℕ
positive_or_default (pos (suc n)) = suc n
positive_or_default _ = default_interval_hours

-- `Number.parseInt(raw, 10)` reads a text as `rubyToI` does, but for one without a number, which
-- leads to the default as 0 does.
unfoldable pub resolve_interval_hours : Option String → ℕ
unfolding ruby_to_i
resolve_interval_hours none = default_interval_hours
resolve_interval_hours (some raw) =
    if raw == "" then default_interval_hours else positive_or_default (ruby_to_i raw)

abbrev pub interval_ms : ℕ → ℕ
interval_ms hours = hours * 60 * 60 * 1000

-- How long `setInterval` of Node.js waits: one millisecond where the delay is below 1 or does not fit
-- into 31 bits.
abbrev pub timer_delay : ℕ → ℕ
timer_delay ms = if leb 1 ms && leb ms 2_147_483_647 then ms else 1

-- The period of the timer that `startIcsAutoSync` starts, or none.
unfoldable pub start_ics_auto_sync : Option String → Option String → Option String → Option ℕ
unfolding resolve_interval_hours
start_ics_auto_sync node_env ics_sync_disabled interval_hours =
    if is_text "test" node_env || is_text "true" ics_sync_disabled
    then none
    else some (timer_delay (interval_ms (resolve_interval_hours interval_hours)))

-- A row of `external_event_ics_sources`, with its calendar, if it could be fetched and read.
pub record SourceRow : Type 0 where
  pub source : Source
  pub name : String
  pub deleted : Option Bool

-- The result of one source, or none for an error.
pub record IcsSourceSyncOutcome : Type 0 where
  pub id : ℕ
  pub name : String
  pub result : Option IcsSyncResult

abbrev pub is_active : SourceRow → Bool
is_active r = is_some r.deleted && not (is_true r.deleted)

abbrev pub outcome : SourceRow → Option IcsSyncResult → IcsSourceSyncOutcome
outcome r result = record { id = r.source.id; name = r.name; result = result }

-- The loop; `feed` gives what is fetched for a source, or none where that throws.
unfoldable pub sync_each :
    (SourceRow → Option (List (ParsedIcsEvent × String)))
    → ℕ
    → List SourceRow
    → Events
    → List IcsSourceSyncOutcome × Events
unfolding sync_external_event_ics_source
sync_each feed now [] es = ([], es)
sync_each feed now (r ∷ rows) es = elim (feed r) [
  | none ↦ let (outcomes, es1) = sync_each feed now rows es in (outcome r none ∷ outcomes, es1)
  | some events ↦
      let (result, es1) = sync_external_event_ics_source r.source events now es in
      let (outcomes, es2) = sync_each feed now rows es1 in (outcome r (some result) ∷ outcomes, es2)
]

unfoldable pub sync_all_active_ics_sources :
    (SourceRow → Option (List (ParsedIcsEvent × String)))
    → ℕ
    → List SourceRow
    → Events
    → List IcsSourceSyncOutcome × Events
unfolding sync_each
sync_all_active_ics_sources feed now rows es = sync_each feed now (select is_active rows) es
