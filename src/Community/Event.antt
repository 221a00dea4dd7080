-- ===== src/Community/Event.antt =====
-- The rows of the tables `campus_events` and `event_registrations`
-- (backend/app/modules/community/models.py) and the queries of `EventRepository`
-- (repositories.py). Ids are UUIDs and times are microseconds.
use campus_pilots.Base.{
  ℕ, String, Bool, true, false, ◌&&◌, Option, List, ◌==◌, is_none, find, update_where,
}
use campus_pilots.Platform.Moderation.{RiskLevel, SensitiveWord, ModerationCase}
use campus_pilots.Platform.Audit.{AuditLog}
use campus_pilots.Platform.Idempotency.{IdempotencyRecord}

pub data EventStatus : Type 0 where
  pending_review published rejected cancelled ended deleted : EventStatus

pub record CampusEvent : Type 0 where
  pub id : ℕ
  pub organizer_user_id : ℕ
  pub title : String
  pub description_markdown : String
  pub category : String
  pub location : String
  pub starts_at : ℕ
  pub ends_at : ℕ
  pub registration_deadline : ℕ
  pub capacity : ℕ
  pub registered_count : ℕ
  pub status : EventStatus
  pub risk_level : RiskLevel
  pub moderation_case_id : Option ℕ
  pub moderation_policy_version : String
  pub cancellation_reason : Option String
  pub published_at : Option ℕ
  pub version : ℕ
  pub created_at : ℕ
  pub updated_at : ℕ
  pub deleted_at : Option ℕ

pub data RegistrationStatus : Type 0 where
  registered cancelled : RegistrationStatus

pub record EventRegistration : Type 0 where
  pub event_id : ℕ
  pub user_id : ℕ
  pub status : RegistrationStatus
  pub registered_at : ℕ
  pub cancelled_at : Option ℕ
  pub updated_at : ℕ

pub record PublicProfile : Type 0 where
  pub display_name : String
  pub avatar_url : Option String

pub record PublicAuthorData : Type 0 where
  pub user_id : ℕ
  pub display_name : String
  pub avatar_url : Option String

pub record RegistrationData : Type 0 where
  pub event_id : ℕ
  pub participant : PublicAuthorData
  pub status : RegistrationStatus
  pub registered_at : ℕ
  pub cancelled_at : Option ℕ
  pub event_registered_count : ℕ

pub record EventData : Type 0 where
  pub id : ℕ
  pub organizer : PublicAuthorData
  pub title : String
  pub description_markdown : String
  pub category : String
  pub location : String
  pub starts_at : ℕ
  pub ends_at : ℕ
  pub registration_deadline : ℕ
  pub capacity : ℕ
  pub registered_count : ℕ
  pub status : EventStatus
  pub my_registration_status : Option RegistrationStatus
  pub cancellation_reason : Option String
  pub moderation_case_id : Option ℕ
  pub published_at : Option ℕ
  pub version : ℕ
  pub created_at : ℕ
  pub updated_at : ℕ

-- What a response carries as its `data`.
pub data ResponseData : Type 0 where
  registration_content : RegistrationData → ResponseData
  event_content : EventData → ResponseData

-- `registration_response_body` and `event_response_body`
pub record CommunityResponse : Type 0 where
  pub content : ResponseData
  pub request_id : String
  pub timestamp : ℕ

pub record Tables : Type 0 where
  pub events : List CampusEvent
  pub registrations : List EventRegistration
  pub profiles : ℕ → Option PublicProfile
  pub words : List SensitiveWord
  pub cases : List ModerationCase
  pub idempotency : List (IdempotencyRecord CommunityResponse)
  pub audit : List AuditLog

abbrev pub is_published : EventStatus → Bool
is_published published = true
is_published _ = false

abbrev pub is_registered : RegistrationStatus → Bool
is_registered RegistrationStatus.registered = true
is_registered RegistrationStatus.cancelled = false

unfoldable pub get_for_update : ℕ → List CampusEvent → Option CampusEvent
get_for_update id events = find (λ e. e.id == id && is_none e.deleted_at) events

-- The primary key of a registration.
abbrev pub keyed : ℕ → ℕ → EventRegistration → Bool
keyed event_id user_id r = r.event_id == event_id && r.user_id == user_id

unfoldable pub get_registration_for_update :
    ℕ → ℕ → List EventRegistration → Option EventRegistration
get_registration_for_update event_id user_id rows = find (keyed event_id user_id) rows

-- The flush of a changed event, and of a changed registration.
unfoldable pub write_event : CampusEvent → List CampusEvent → List CampusEvent
write_event e events = update_where (λ y. y.id == e.id) (λ _. e) events

unfoldable pub write_registration :
    EventRegistration → List EventRegistration → List EventRegistration
write_registration r rows = update_where (keyed r.event_id r.user_id) (λ _. r) rows
