-- ===== src/Community/Moderated/Tests.antt =====
-- An event that was cancelled while its case was open.
use campus_pilots.Base.{ℕ, Option, true, none, some, [], ◌∷◌, ◌≡◌, refl, map}
use campus_pilots.Platform.Moderation.{low}
use campus_pilots.Community.Event.{CampusEvent, EventStatus, published, cancelled, Tables}
use campus_pilots.Community.EventService.{is_final}
use campus_pilots.Community.Moderated.{approved, apply}

abbrev event : CampusEvent
event = record {
  id = 3;
  organizer_user_id = 7;
  title = "concert";
  description_markdown = "music";
  category = "music";
  location = "hall";
  starts_at = 100;
  ends_at = 200;
  registration_deadline = 90;
  capacity = 10;
  registered_count = 0;
  status = cancelled;
  risk_level = low;
  moderation_case_id = some 5;
  moderation_policy_version = "m4-sensitive-v1";
  cancellation_reason = some "rain";
  published_at = none;
  version = 2;
  created_at = 1;
  updated_at = 2;
  deleted_at = none;
}

abbrev tables : Tables
tables = record {
  events = event ∷ [];
  registrations = [];
  profiles = λ id. none;
  words = [];
  cases = [];
  idempotency = [];
  audit = [];
}

-- The approval of its case publishes the cancelled event again, which is final for the organizer.
published_again :
    (is_final cancelled ≡ true)
    × (map {B = EventStatus × Option ℕ}
          (λ (e : CampusEvent). (e.status, e.published_at))
          (apply 5 3 approved 50 tables).1.events
        ≡ (published, some 50) ∷ [])
    × (map (λ (e : CampusEvent). e.cancellation_reason) (apply 5 3 approved 50 tables).1.events
        ≡ some "rain" ∷ [])
unfolding apply
published_again = (refl, refl, refl)
