-- ===== src/Community/Registration.antt =====
-- `EventRegistrationService` (backend/app/modules/community/registrations.py): `register` and
-- `cancel`.
pub mod Counts
pub mod Seats
pub mod Kept
mod Tests
use Prim.Native.String.{◌++◌}
use campus_pilots.Base.{
  ℕ, ◌+◌, ◌-◌, String, Bool, true, false, not, ◌&&◌, ◌||◌, Option, none, some, List, ◌∷◌, ltb, leb,
  is_some, refl, if◌then◌else◌,
}
use campus_pilots.Errors.{
  event_not_found, event_registration_closed, event_registration_not_found, event_capacity_full,
  event_registration_busy,
}
use campus_pilots.Exec.{Exec, pure, gets, modify, require, raise_if, atomically, ◌>>=◌, ◌>>◌}
use campus_pilots.Platform.Audit.{record_success}
use campus_pilots.Platform.Idempotency.{Scope}
use campus_pilots.Platform.Idempotency.Endpoint.{HasRecords, Answer, Completion, Request, once}
use campus_pilots.Community.Event.{
  CampusEvent, EventRegistration, RegistrationStatus, registered, PublicProfile, PublicAuthorData,
  RegistrationData, registration_content, CommunityResponse, Tables, is_published, is_registered,
  get_for_update, get_registration_for_update, write_event, write_registration,
}

instance abbrev pub registration_records : HasRecords Tables CommunityResponse
registration_records = record {
  records = λ w. w.idempotency;
  with_records = λ rows w. record w { idempotency = rows };
  records-with = λ rows w. refl;
  with-records = λ w. refl;
}

pub record Actor : Type 0 where
  pub user_id : ℕ
  pub username : String

-- The request, the clock, a fresh UUID, and whether the wait for the event's lock times out.
pub record Call : Type 0 where
  pub idempotency_key : String
  pub request_id : String
  pub now : ℕ
  pub record_id : ℕ
  pub lock_timeout : Bool

-- `str(uuid)`, and `canonical_request_hash({})`.
pub record Externals : Type 0 where
  pub uuid_text : ℕ → String
  pub empty_request_hash : String

-- `_data`
abbrev pub name_of : Option PublicProfile → String
name_of none = "未知用户"
name_of (some p) = p.display_name

abbrev pub avatar_of : Option PublicProfile → Option String
avatar_of none = none
avatar_of (some p) = p.avatar_url

abbrev pub registration_data : EventRegistration → ℕ → Option PublicProfile → RegistrationData
registration_data r count profile = record {
  event_id = r.event_id;
  participant = record {
    user_id = r.user_id;
    display_name = name_of profile;
    avatar_url = avatar_of profile;
  };
  status = r.status;
  registered_at = r.registered_at;
  cancelled_at = r.cancelled_at;
  event_registered_count = count;
}

-- `row is None or row.status == "cancelled"`
abbrev pub is_new : Option EventRegistration → Bool
is_new none = true
is_new (some r) = not (is_registered r.status)

-- The row after the branch, and the table with it.
abbrev pub registered_row : ℕ → ℕ → ℕ → Option EventRegistration → EventRegistration
registered_row event_id user_id now none = record {
  event_id = event_id;
  user_id = user_id;
  status = registered;
  registered_at = now;
  cancelled_at = none;
  updated_at = now;
}
registered_row event_id user_id now (some r) = if is_registered r.status then r else record r {
  status = registered;
  registered_at = now;
  cancelled_at = none;
  updated_at = now;
}

abbrev pub store_row :
    Option EventRegistration → EventRegistration → List EventRegistration → List EventRegistration
store_row none r rows = r ∷ rows
store_row (some _) r rows = write_registration r rows

abbrev pub counted_event : Bool → ℕ → CampusEvent → CampusEvent
counted_event changed now e =
    if changed then record e { registered_count = e.registered_count + 1; updated_at = now } else e

abbrev pub withdrawn_row : ℕ → EventRegistration → EventRegistration
withdrawn_row now r = record r {
  status = RegistrationStatus.cancelled;
  cancelled_at = some now;
  updated_at = now;
}

-- `max(event.registered_count - 1, 0)` is the truncated difference.
abbrev pub released_event : ℕ → CampusEvent → CampusEvent
released_event now e = record e { registered_count = e.registered_count - 1; updated_at = now }

module _ (x : Externals) where
  abbrev pub log_event : String → Actor → Call → ℕ → Tables → Tables
  log_event action actor call event_id w = record w {
    audit =
        record_success action "event" (some (x.uuid_text event_id)) call.request_id
          (some actor.user_id) (some actor.username) w.audit;
  }

  abbrev pub register_completion :
      Actor → Call → EventRegistration → ℕ → Option PublicProfile → Completion CommunityResponse
  register_completion actor call r count profile = record {
    response_status = 200;
    response_body = record {
      content = registration_content (registration_data r count profile);
      request_id = call.request_id;
      timestamp = call.now;
    };
    resource_type = some "event_registration";
    resource_id = some (x.uuid_text r.event_id ++ (":" ++ x.uuid_text actor.user_id));
  }

  -- What `register` does once the idempotency key is new.
  unfoldable pub register_work : Actor → ℕ → Call → Exec Tables (Completion CommunityResponse)
  unfolding get_for_update get_registration_for_update write_event write_registration
  register_work actor event_id call = do
    raise_if call.lock_timeout event_registration_busy
    events ← gets (λ w. w.events)
    e ← require (get_for_update event_id events) event_not_found
    raise_if (not (is_published e.status)) event_not_found
    raise_if (ltb e.registration_deadline call.now || leb e.starts_at call.now)
        event_registration_closed
    row ← gets (λ w. get_registration_for_update event_id actor.user_id w.registrations)
    let changed = is_new row
    raise_if (changed && leb e.capacity e.registered_count) event_capacity_full
    let r = registered_row event_id actor.user_id call.now row
    let e' = counted_event changed call.now e
    modify (λ w. record w {
      registrations = store_row row r w.registrations;
      events = write_event e' w.events;
    })
    modify (λ w. if changed then log_event "community.event.register" actor call event_id w else w)
    profile ← gets (λ w. w.profiles actor.user_id)
    pure (register_completion actor call r e'.registered_count profile)

  abbrev pub register_request : Actor → ℕ → Call → Request
  register_request actor event_id call = record {
    scope = record {
      user_id = actor.user_id;
      endpoint = "POST /api/v1/events/" ++ (x.uuid_text event_id ++ "/registrations");
      idempotency_key = call.idempotency_key;
    };
    request_hash = x.empty_request_hash;
    record_id = call.record_id;
    now = call.now;
  }

  unfoldable pub register : Actor → ℕ → Call → Exec Tables (Answer CommunityResponse)
  unfolding register_work once
  register actor event_id call = atomically (
      once registration_records (register_request actor event_id call)
        (register_work actor event_id call))

  -- The branch `if row.status == "registered"`.
  abbrev pub release : Actor → Call → CampusEvent → EventRegistration → Tables → Tables
  release actor call e r w =
      if is_registered r.status
      then log_event "community.event.registration.cancel" actor call e.id (record w {
        registrations = write_registration (withdrawn_row call.now r) w.registrations;
        events = write_event (released_event call.now e) w.events;
      })
      else w

  unfoldable pub cancel_body : Actor → ℕ → Call → Exec Tables RegistrationData
  unfolding get_for_update get_registration_for_update write_event write_registration
  cancel_body actor event_id call = do
    raise_if call.lock_timeout event_registration_busy
    events ← gets (λ w. w.events)
    e ← require (get_for_update event_id events) event_not_found
    raise_if (leb e.starts_at call.now) event_registration_closed
    rows ← gets (λ w. w.registrations)
    r ←
        require (get_registration_for_update event_id actor.user_id rows)
          event_registration_not_found
    modify (release actor call e r)
    profile ← gets (λ w. w.profiles actor.user_id)
    pure (
        registration_data (if is_registered r.status then withdrawn_row call.now r else r)
          (if is_registered r.status then e.registered_count - 1 else e.registered_count) profile)

  unfoldable pub cancel : Actor → ℕ → Call → Exec Tables RegistrationData
  unfolding cancel_body
  cancel actor event_id call = atomically (cancel_body actor event_id call)
