-- ===== src/Community/Registration/Tests.antt =====
-- Registrations for a concrete event.
use campus_pilots.Base.{ℕ, false, map, none, some, List, [], ◌∷◌, ◌≡◌, refl}
use campus_pilots.Platform.Idempotency.{begin, complete}
use campus_pilots.Platform.Moderation.{low}
use campus_pilots.Community.Event.{CampusEvent, published, Tables}
use campus_pilots.Community.Registration.{Actor, Call, Externals, register, cancel}

abbrev externals : Externals
externals = record { uuid_text = λ n. "uuid"; empty_request_hash = "hash" }

abbrev ada : Actor
ada = record { user_id = 1; username = "ada" }

abbrev concert : CampusEvent
concert = record {
  id = 4;
  organizer_user_id = 2;
  title = "Concert";
  description_markdown = "Music";
  category = "art";
  location = "Hall";
  starts_at = 100;
  ends_at = 200;
  registration_deadline = 90;
  capacity = 1;
  registered_count = 0;
  status = published;
  risk_level = low;
  moderation_case_id = none;
  moderation_policy_version = "m4-sensitive-v1";
  cancellation_reason = none;
  published_at = some 1;
  version = 1;
  created_at = 0;
  updated_at = 1;
  deleted_at = none;
}

abbrev tables : Tables
tables = record {
  events = concert ∷ [];
  registrations = [];
  profiles = λ u. none;
  words = [];
  cases = [];
  idempotency = [];
  audit = [];
}

abbrev call_at : ℕ → Call
call_at n = record {
  idempotency_key = "key";
  request_id = "request";
  now = n;
  record_id = n;
  lock_timeout = false;
}

abbrev counts : Tables → List ℕ
counts w = map (λ e. e.registered_count) w.events

-- The only place is taken, and given back.
place_is_taken : counts (register externals ada 4 (call_at 10) tables).1 ≡ 1 ∷ []
unfolding register begin complete
place_is_taken = refl

place_is_free :
    counts (cancel externals ada 4 (call_at 20) (register externals ada 4 (call_at 10) tables).1).1
    ≡ 0 ∷ []
unfolding register cancel begin complete
place_is_free = refl
