-- ===== src/Community/Moderated.antt =====
-- `CommunityModerationHandler` for events (backend/app/modules/community/moderation_handler.py): what
-- the decision of a moderation case does to its event.
pub mod Seats
mod Tests
use campus_pilots.Base.{
  ℕ, Bool, true, false, not, ◌||◌, Option, none, some, List, ◌==◌, find, is_some, if◌then◌else◌,
}
use campus_pilots.Errors.{moderation_target_conflict}
use campus_pilots.Exec.{Exec, pure, gets, require, raise_if, modify, ◌>>=◌, ◌>>◌}
use campus_pilots.Community.Event.{CampusEvent, EventStatus, Tables, is_published, write_event}

pub data Decision : Type 0 where
  approved rejected escalated : Decision

abbrev pub is_deleted : EventStatus → Bool
is_deleted EventStatus.deleted = true
is_deleted _ = false

abbrev pub is_escalated : Decision → Bool
is_escalated escalated = true
is_escalated _ = false

abbrev pub has_id : ℕ → CampusEvent → Bool
has_id target_id e = e.id == target_id

abbrev pub is_case : ℕ → Option ℕ → Bool
is_case case_id none = false
is_case case_id (some c) = c == case_id

-- The event after a decision; the code reads its clock twice, here `now`.
abbrev pub judged : Decision → ℕ → CampusEvent → CampusEvent
judged approved now e = record e {
  status = EventStatus.published;
  published_at = if is_published e.status then e.published_at else some now;
  updated_at = now;
}
judged rejected now e = record e {
  status = EventStatus.rejected;
  published_at = none;
  updated_at = now;
}
judged escalated now e = e

-- The condition of the early return, which leaves the event as it is.
abbrev pub is_settled : Decision → CampusEvent → Bool
is_settled decision e = is_some e.deleted_at || (is_deleted e.status || is_escalated decision)

-- `_apply`
unfoldable pub apply : ℕ → ℕ → Decision → ℕ → Exec Tables (Unit {0})
unfolding write_event
apply case_id target_id decision now = do
  row ← gets (λ w. find (has_id target_id) w.events)
  e ← require row moderation_target_conflict
  raise_if (not (is_case case_id e.moderation_case_id)) moderation_target_conflict
  let after = if is_settled decision e then (λ es. es) else write_event (judged decision now e)
  modify (λ w. record w { events = after w.events })
