-- ===== src/Tests/Feeds.antt =====
-- A fetch from a server that redirects to the local machine.
use intern_logenhelfer_de.Calendar.Schedule.{start_ics_auto_sync}
use intern_logenhelfer_de.Calendar.Schedule.Interval.{start_ics_auto_sync_lem}
use intern_logenhelfer_de.Routes.Params.{decimal}
use intern_logenhelfer_de.Base.{
  ◌≡◌, ◌≤◌, refl, arith, String, some, [], ◌∷◌, length, All, ◌==◌, string_eq, if◌then◌else◌, err,
  true, false, none, List,
}
use intern_logenhelfer_de.Calendar.Address.{IPv4Octets, is_blocked_address}
use intern_logenhelfer_de.Calendar.Sync.{
  ParsedIcsEvent, Source, Events, new_event, uids, has_text, sync_external_event_ics_source,
}
use intern_logenhelfer_de.Calendar.Sync.Keys.{IsValid}
use intern_logenhelfer_de.Calendar.Sync.Converges.{shows, sync_external_event_ics_source_lem}
use intern_logenhelfer_de.Base.{any}
use intern_logenhelfer_de.Calendar.Fetch.{Url, Network, fetch_ics_url_safely, blocked_address}
use intern_logenhelfer_de.Calendar.Fetch.Pinned.{IsSafe, fetch_ics_url_safely_lem}

abbrev private_address : IPv4Octets
private_address = record { a = 172; b = 20; c = 0; d = 9 }

abbrev url : String → Url
url hostname = record { protocol = "https:"; hostname = hostname; href = hostname }

abbrev network : Network
network = record {
  new_url = λ text. some (url text);
  resolve_url = λ location base. some location;
  lookup = λ n hostname.
      some (if hostname == "logen.de" then "93.184.216.34" ∷ [] else "127.0.0.1" ∷ []);
  fetch = λ n target addresses. some (record { status = 302; location = some "intern"; text = "" });
  lower = λ t. t;
}

fetch_ics_url_safely_lem_example :
    let (made, result) = fetch_ics_url_safely network "logen.de" in
    All (IsSafe network) made × (length made ≤ 6)
fetch_ics_url_safely_lem_example = fetch_ics_url_safely_lem network "logen.de"

mapped_loopback : is_blocked_address "::ffff:127.0.0.1" ≡ true
unfolding is_blocked_address
mapped_loopback = refl

link_local : is_blocked_address "fe80::1" ≡ true
unfolding is_blocked_address
link_local = refl

public_address : is_blocked_address "93.184.216.34" ≡ false
unfolding is_blocked_address
public_address = refl

redirect_stopped : (fetch_ics_url_safely network "logen.de").1 ≡ err blocked_address
unfolding fetch_ics_url_safely is_blocked_address
redirect_stopped = refl

abbrev feed_event : String → ParsedIcsEvent
feed_event uid = record {
  uid = uid;
  title = "Stiftungsfest";
  location = "";
  description = none;
  date = 0;
  time = 0;
}

abbrev source : Source
source = record { id = 4; created_by_id = 1 }

-- An event that is no longer in the feed, and one of another source.
abbrev events : Events
events = record {
  rows =
      new_event source (feed_event "alt") "u1" 0 1
      ∷ new_event (record { id = 5; created_by_id = 1 }) (feed_event "neu") "u2" 0 2
      ∷ [];
  next_id = 3;
}

abbrev feed : List (ParsedIcsEvent × String)
feed = (feed_event "neu", "u3") ∷ (feed_event "neu", "u4") ∷ []

events-IsValid : IsValid events
events-IsValid = record {
  keyed = ((λ h. omega (arith, h), tt), (tt, tt));
  below = (omega arith, (omega arith, tt));
}

sync_external_event_ics_source_lem_example :
    let es' = (sync_external_event_ics_source source feed 7 events).1 in
    (any (shows source "neu") es'.rows ≡ has_text (uids feed) "neu") × IsValid es'
sync_external_event_ics_source_lem_example =
    sync_external_event_ics_source_lem source feed 7 "neu" events events-IsValid

sync_counts :
    (sync_external_event_ics_source source feed 7 events).0
    ≡ record { created = 1; updated = 1; removed = 1 }
unfolding sync_external_event_ics_source
sync_counts = refl

-- Thirty days do not fit into the timer.
start_ics_auto_sync_lem_example : start_ics_auto_sync none none (some (decimal 720)) ≡ some 1
start_ics_auto_sync_lem_example =
    (start_ics_auto_sync_lem none none 720 (omega arith) refl).1 (omega arith)
