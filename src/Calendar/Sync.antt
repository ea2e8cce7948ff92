-- ===== src/Calendar/Sync.antt =====
-- Bringing the events of a feed into the database (api/src/lib/externalEventIcsSync.ts).
pub mod Keys
pub mod Converges
use intern_logenhelfer_de.Base.{
  ℕ, zero, suc, ◌+◌, String, Bool, true, false, not, ◌&&◌, ◌||◌, Option, none, some, List, [], ◌∷◌,
  ◌++◌, map, length, find, select, update_where, any, ◌==◌, nat_eq, string_eq, if◌then◌else◌,
}
use intern_logenhelfer_de.Authz.Rules.{is_number}

pub record ParsedIcsEvent : Type 0 where
  pub uid : String
  pub title : String
  pub location : String
  pub description : Option String
  pub date : ℕ
  pub time : ℕ

-- A row of `external_events`, with `deleted` null as `none`.
pub record ExternalEvent : Type 0 where
  pub id : ℕ
  pub uuid : String
  pub title : String
  pub location : String
  pub description : Option String
  pub date : ℕ
  pub time : ℕ
  pub created_by_id : ℕ
  pub deleted : Option Bool
  pub updated_at : ℕ
  pub ics_source_id : Option ℕ
  pub ics_uid : Option String

pub record Source : Type 0 where
  pub id : ℕ
  pub created_by_id : ℕ

-- The rows and the next id.
pub record Events : Type 0 where
  pub rows : List ExternalEvent
  pub next_id : ℕ

abbrev pub is_text : String → Option String → Bool
is_text t none = false
is_text t (some u) = u == t

-- `{ ics_source_id: source.id, ics_uid: parsedEvent.uid }`
abbrev pub comes_from : Source → String → ExternalEvent → Bool
comes_from source uid e = is_number source.id e.ics_source_id && is_text uid e.ics_uid

abbrev pub refreshed : ParsedIcsEvent → ℕ → ExternalEvent → ExternalEvent
refreshed p now e = record e {
  title = p.title;
  location = p.location;
  description = p.description;
  date = p.date;
  time = p.time;
  deleted = some false;
  updated_at = now;
}

abbrev pub new_event : Source → ParsedIcsEvent → String → ℕ → ℕ → ExternalEvent
new_event source p uuid now id = record {
  id = id;
  uuid = uuid;
  title = p.title;
  location = p.location;
  description = p.description;
  date = p.date;
  time = p.time;
  created_by_id = source.created_by_id;
  deleted = some false;
  updated_at = now;
  ics_source_id = some source.id;
  ics_uid = some p.uid;
}

-- One event of the feed: whether it was created, and the rows after it. The uuid is what
-- `generateUniqueUuid` drew.
unfoldable pub upsert_event : Source → ParsedIcsEvent → String → ℕ → Events → Bool × Events
upsert_event source p uuid now es = elim (find (comes_from source p.uid) es.rows) [
  | some existing ↦ (
    false,
    record es { rows = update_where (λ e. e.id == existing.id) (refreshed p now) es.rows },
  )
  | none ↦ (
    true,
    record {
      rows = es.rows ++ new_event source p uuid now es.next_id ∷ [];
      next_id = suc es.next_id;
    },
  )
]

pub record IcsSyncResult : Type 0 where
  pub created : ℕ
  pub updated : ℕ
  pub removed : ℕ

abbrev pub counted : Bool → IcsSyncResult → IcsSyncResult
counted true r = record r { created = suc r.created }
counted false r = record r { updated = suc r.updated }

-- The loop over the feed, each event with its uuid.
unfoldable pub upsert_events :
    Source → List (ParsedIcsEvent × String) → ℕ → IcsSyncResult × Events → IcsSyncResult × Events
unfolding upsert_event
upsert_events source [] now acc = acc
upsert_events source ((p, uuid) ∷ feed) now (r, es) =
    let (created, es1) = upsert_event source p uuid now es in
    upsert_events source feed now (counted created r, es1)

abbrev pub uids : List (ParsedIcsEvent × String) → List String
uids [] = []
uids ((p, uuid) ∷ feed) = p.uid ∷ uids feed

abbrev pub has_text : List String → String → Bool
has_text ts t = any (λ u. u == t) ts

-- `deleted: false`, which null is not.
abbrev pub is_active : ExternalEvent → Bool
is_active e = elim e.deleted [ none ↦ false | some deleted ↦ not deleted ]

-- `{ notIn: seenUids }`, or no condition for an empty feed. A null uid is in no such result.
abbrev pub not_seen : List String → Option String → Bool
not_seen [] uid = true
not_seen (s ∷ seen) none = false
not_seen (s ∷ seen) (some uid) = not (has_text (s ∷ seen) uid)

abbrev pub is_stale : Source → List String → ExternalEvent → Bool
is_stale source seen e =
    is_number source.id e.ics_source_id && (is_active e && not_seen seen e.ics_uid)

abbrev pub mark_deleted : ExternalEvent → ExternalEvent
mark_deleted e = record e { deleted = some true }

-- The stale rows by their ids: how many, and the rows after their removal.
unfoldable pub remove_stale : Source → List String → Events → ℕ × Events
remove_stale source seen es =
    let stale = select (is_stale source seen) es.rows in
    (
      length stale,
      record es { rows = update_where (λ e. any (λ q. q.id == e.id) stale) mark_deleted es.rows },
    )

unfoldable pub sync_external_event_ics_source :
    Source → List (ParsedIcsEvent × String) → ℕ → Events → IcsSyncResult × Events
unfolding upsert_events remove_stale
sync_external_event_ics_source source feed now es =
    let (r, es1) =
      upsert_events source feed now (record { created = 0; updated = 0; removed = 0 }, es) in
    let (removed, es2) = remove_stale source (uids feed) es1 in
    (record r { removed = removed }, es2)
