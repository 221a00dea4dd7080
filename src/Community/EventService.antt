-- ===== src/Community/EventService.antt =====
-- `EventService` (backend/app/modules/community/events.py): `create`, `update` and `cancel`. The
-- clock is read once for a call.
pub mod Operations
pub mod Seats
pub mod Kept
use Prim.Native.String.{◌++◌}
use campus_pilots.Base.{
  ℕ, ◌+◌, String, Bool, true, false, not, ◌&&◌, ◌||◌, Option, none, some, List, [], ◌∷◌, ltb, leb,
  ◌==◌, is_some, if◌then◌else◌,
}
use campus_pilots.Errors.{
  permission_denied, event_not_found, event_state_invalid, event_time_invalid,
  event_capacity_invalid, community_resource_version_conflict,
}
use campus_pilots.Exec.{
  Result, ok, raised, Exec, pure, gets, lift, modify, require, raise_if, atomically, ◌>>=◌, ◌>>◌,
}
use campus_pilots.Platform.Audit.{AuditLog, record_success}
use campus_pilots.Platform.Idempotency.Endpoint.{Answer, Completion, Request, once}
use campus_pilots.Platform.Moderation.{
  ScanAction, allow, mask, review, block, low, ScanResult, ModerationCase, Texts,
}
use campus_pilots.Platform.Moderation.Scan.{scan, combine_scan_results}
use campus_pilots.Platform.Moderation.Case.{Submission, submit_case}
use campus_pilots.Campus.WorkOrder.Store.{member}
use campus_pilots.Community.Event.{
  EventStatus, pending_review, published, rejected, cancelled, ended, deleted, CampusEvent,
  EventRegistration, RegistrationStatus, EventData, event_content, CommunityResponse, Tables,
  is_published, get_for_update, get_registration_for_update, write_event,
}
use campus_pilots.Community.Registration.{registration_records, name_of, avatar_of}

pub record EventActor : Type 0 where
  pub user_id : ℕ
  pub username : String
  pub permissions : List String

-- The request, the hash of its body, the clock and the fresh UUIDs.
pub record EventCall : Type 0 where
  pub idempotency_key : String
  pub request_id : String
  pub request_hash : String
  pub now : ℕ
  pub record_id : ℕ
  pub new_id : ℕ
  pub case_id : ℕ

pub record NewEvent : Type 0 where
  pub title : String
  pub description_markdown : String
  pub category : String
  pub location : String
  pub starts_at : ℕ
  pub ends_at : ℕ
  pub registration_deadline : ℕ
  pub capacity : ℕ

-- The dictionary `changes`: what it holds of each key.
pub record EventChanges : Type 0 where
  pub title : Option String
  pub description_markdown : Option String
  pub category : Option String
  pub location : Option String
  pub starts_at : Option ℕ
  pub ends_at : Option ℕ
  pub registration_deadline : Option ℕ
  pub capacity : Option ℕ

-- `changes.get(key, default)`
abbrev pub get_or {ℓ} : {A : Type ℓ} → Option A → A → A
get_or none a = a
get_or (some b) a = b

abbrev pub is_moderator : EventActor → Bool
is_moderator actor = member "community:moderate" actor.permissions

-- `_validate_times`
abbrev pub are_invalid : ℕ → ℕ → ℕ → ℕ → Bool
are_invalid starts_at ends_at deadline now =
    leb starts_at now || (leb ends_at starts_at || ltb starts_at deadline)

abbrev pub status_of : ScanAction → EventStatus
status_of allow = published
status_of mask = published
status_of review = pending_review
status_of block = rejected

-- `item.status in {"ended", "cancelled", "rejected", "deleted"}`
abbrev pub is_final : EventStatus → Bool
is_final ended = true
is_final cancelled = true
is_final rejected = true
is_final deleted = true
is_final _ = false

-- `item.status not in {"pending_review", "published"}`
abbrev pub is_cancellable : EventStatus → Bool
is_cancellable pending_review = true
is_cancellable published = true
is_cancellable _ = false

abbrev pub new_event : EventActor → NewEvent → EventCall → CampusEvent
new_event actor n call = record {
  id = call.new_id;
  organizer_user_id = actor.user_id;
  title = n.title;
  description_markdown = n.description_markdown;
  category = n.category;
  location = n.location;
  starts_at = n.starts_at;
  ends_at = n.ends_at;
  registration_deadline = n.registration_deadline;
  capacity = n.capacity;
  registered_count = 0;
  status = pending_review;
  risk_level = low;
  moderation_case_id = none;
  moderation_policy_version = "m4-sensitive-v1";
  cancellation_reason = none;
  published_at = none;
  version = 1;
  created_at = call.now;
  updated_at = call.now;
  deleted_at = none;
}

-- The loop of `setattr`, and the capacity.
abbrev pub changed_event : EventChanges → CampusEvent → CampusEvent
changed_event c e = record e {
  title = get_or c.title e.title;
  description_markdown = get_or c.description_markdown e.description_markdown;
  category = get_or c.category e.category;
  location = get_or c.location e.location;
  starts_at = get_or c.starts_at e.starts_at;
  ends_at = get_or c.ends_at e.ends_at;
  registration_deadline = get_or c.registration_deadline e.registration_deadline;
  capacity = get_or c.capacity e.capacity;
}

abbrev pub cancelled_event : String → ℕ → CampusEvent → CampusEvent
cancelled_event reason now e = record e {
  status = cancelled;
  cancellation_reason = some reason;
  version = e.version + 1;
  updated_at = now;
}

-- What `_scan` writes before it submits the case.
abbrev pub scanned_event : ScanResult → ScanResult → ℕ → CampusEvent → CampusEvent
scanned_event title description now e =
    let combined = combine_scan_results title description in
    let status = status_of combined.action in
    record e {
      title = title.sanitized_text;
      description_markdown = description.sanitized_text;
      status = status;
      risk_level = combined.risk_level;
      moderation_policy_version = combined.policy_version;
      published_at = if is_published status then some now else none;
    }

abbrev pub case_id_of : Option ModerationCase → Option ℕ
case_id_of none = none
case_id_of (some c) = some c.id

-- `_authorize` of an event that was found.
abbrev pub is_forbidden : EventActor → CampusEvent → Bool
is_forbidden actor e = not (e.organizer_user_id == actor.user_id) && not (is_moderator actor)

-- An action of the moderation service, on its part of the tables.
abbrev pub on_cases : {A : Type 0} → Exec (List ModerationCase × List AuditLog) A → Exec Tables A
on_cases m w =
    let (r, (cases, audit)) = m (w.cases, w.audit) in (r, record w { cases = cases; audit = audit })
