-- ===== src/Community/Tests.antt =====
-- Events and registrations on concrete tables.
use campus_pilots.Base.{
  ℕ, ◌≤◌, String, false, true, none, some, List, [], ◌∷◌, ◌≡◌, refl, All, map, str_eq,
}
use campus_pilots.Base.Sort.{sort}
use campus_pilots.Platform.Moderation.Scan.{combine_scan_results}
use campus_pilots.Platform.Idempotency.{begin, complete}
use campus_pilots.Platform.Moderation.{Texts}
use campus_pilots.Community.Event.{CampusEvent, Tables}
use campus_pilots.Community.Registration.{Actor, Call, Externals, register}
use campus_pilots.Community.Registration.Counts.{seats}
use campus_pilots.Community.EventService.{EventActor, EventCall, NewEvent, EventChanges}
use campus_pilots.Community.EventService.Operations.{create, update, cancel}
use campus_pilots.Community.Reach.{
  Reach, here, followed_by, by_create, by_register, by_update, by_cancel, never_overbooked,
}

abbrev texts : Texts
texts = record {
  casefold = λ s. s;
  is_in = str_eq;
  compiles = λ p. true;
  search = str_eq;
  sub = λ p r s. some s;
  escape = λ s. s;
  uuid_text = λ n. "uuid";
}

abbrev externals : Externals
externals = record { uuid_text = λ n. "uuid"; empty_request_hash = "hash" }

abbrev organizer : EventActor
organizer = record { user_id = 2; username = "bob"; permissions = [] }

abbrev ada : Actor
ada = record { user_id = 1; username = "ada" }

abbrev event_call : String → ℕ → EventCall
event_call key n = record {
  idempotency_key = key;
  request_id = "request";
  request_hash = "hash";
  now = n;
  record_id = n;
  new_id = 4;
  case_id = n;
}

abbrev call : Call
call = record {
  idempotency_key = "b";
  request_id = "request";
  now = 20;
  record_id = 20;
  lock_timeout = false;
}

abbrev concert : NewEvent
concert = record {
  title = "Concert";
  description_markdown = "Music";
  category = "art";
  location = "Hall";
  starts_at = 100;
  ends_at = 200;
  registration_deadline = 90;
  capacity = 1;
}

abbrev larger : EventChanges
larger = record {
  title = none;
  description_markdown = none;
  category = none;
  location = some "Great hall";
  starts_at = none;
  ends_at = none;
  registration_deadline = none;
  capacity = some 5;
}

abbrev empty : Tables
empty = record {
  events = [];
  registrations = [];
  profiles = λ u. none;
  words = [];
  cases = [];
  idempotency = [];
  audit = [];
}

abbrev created : Tables
created = (create texts organizer (event_call "a" 10) concert empty).1

abbrev joined : Tables
joined = (register externals ada 4 call created).1

abbrev enlarged : Tables
enlarged = (update texts organizer (event_call "c" 30) 4 1 larger joined).1

abbrev called_off : Tables
called_off = (cancel texts organizer (event_call "d" 40) 4 2 "rain" enlarged).1

abbrev path : Reach texts externals empty called_off
path =
    followed_by
      (followed_by
        (followed_by (followed_by here (by_create organizer (event_call "a" 10) concert refl refl))
          (by_register ada 4 call refl))
        (by_update organizer (event_call "c" 30) 4 1 larger refl))
      (by_cancel organizer (event_call "d" 40) 4 2 "rain" refl)

abbrev figures : Tables → List (ℕ × ℕ × ℕ)
figures w = map (λ e. (e.registered_count, e.capacity, e.version)) w.events

-- The participant counts, the capacity is raised and the event is at its third version.
three_changes : figures called_off ≡ (1, 5, 3) ∷ []
unfolding create update cancel register begin complete sort combine_scan_results
three_changes = refl

never_overbooked_example :
    All
      (λ (e : CampusEvent).
        (e.registered_count ≡ seats e.id called_off.registrations)
        × (seats e.id called_off.registrations ≤ e.capacity))
      called_off.events
never_overbooked_example =
    never_overbooked texts externals {w = empty} {v = called_off} refl refl path
