-- ===== src/Community/EventService/Operations.antt =====
-- `EventService._scan`, `create`, `update` and `cancel`, and `EventQueryService._hydrate` of one event.
use Prim.Native.String.{◌++◌}
use campus_pilots.Base.{
  ℕ, ◌+◌, String, not, ◌||◌, Option, none, some, ◌∷◌, ltb, ◌==◌, if◌then◌else◌,
}
use campus_pilots.Errors.{
  permission_denied, event_not_found, event_state_invalid, event_time_invalid,
  event_capacity_invalid, community_resource_version_conflict,
}
use campus_pilots.Exec.{Exec, pure, gets, lift, modify, require, raise_if, atomically, ◌>>=◌, ◌>>◌}
use campus_pilots.Platform.Audit.{record_success}
use campus_pilots.Platform.Idempotency.Endpoint.{Answer, Completion, Request, once}
use campus_pilots.Platform.Moderation.{Texts}
use campus_pilots.Platform.Moderation.Scan.{scan, combine_scan_results}
use campus_pilots.Platform.Moderation.Case.{Submission, submit_case}
use campus_pilots.Community.Event.{
  CampusEvent, EventRegistration, RegistrationStatus, EventData, event_content, CommunityResponse,
  Tables, get_for_update, get_registration_for_update, write_event,
}
use campus_pilots.Community.Registration.{registration_records, name_of, avatar_of}
use campus_pilots.Community.EventService.{
  EventActor, EventCall, NewEvent, EventChanges, is_moderator, are_invalid, is_final,
  is_cancellable, new_event, changed_event, cancelled_event, scanned_event, case_id_of,
  is_forbidden, on_cases, get_or,
}

abbrev pub registration_status : Option EventRegistration → Option RegistrationStatus
registration_status none = none
registration_status (some r) = some r.status

-- The case is shown to moderators and to the organizer.
abbrev pub event_data : EventActor → CampusEvent → Tables → EventData
event_data actor e w = record {
  id = e.id;
  organizer = record {
    user_id = e.organizer_user_id;
    display_name = name_of (w.profiles e.organizer_user_id);
    avatar_url = avatar_of (w.profiles e.organizer_user_id);
  };
  title = e.title;
  description_markdown = e.description_markdown;
  category = e.category;
  location = e.location;
  starts_at = e.starts_at;
  ends_at = e.ends_at;
  registration_deadline = e.registration_deadline;
  capacity = e.capacity;
  registered_count = e.registered_count;
  status = e.status;
  my_registration_status =
      registration_status (get_registration_for_update e.id actor.user_id w.registrations);
  cancellation_reason = e.cancellation_reason;
  moderation_case_id =
      if is_moderator actor || e.organizer_user_id == actor.user_id
      then e.moderation_case_id
      else none;
  published_at = e.published_at;
  version = e.version;
  created_at = e.created_at;
  updated_at = e.updated_at;
}

module _ (x : Texts) (actor : EventActor) (call : EventCall) where
  abbrev pub submission : CampusEvent → Submission
  submission e = record {
    target_module = "community";
    target_type = "event";
    target_id = e.id;
    content = e.title ++ ("\n" ++ e.description_markdown);
    submitted_by = actor.user_id;
    actor_username = actor.username;
    request_id = call.request_id;
    case_id = call.case_id;
    now = call.now;
  }

  unfoldable pub scan_event : CampusEvent → Exec Tables CampusEvent
  unfolding scan submit_case
  scan_event e = do
    words ← gets (λ w. w.words)
    title ← lift (scan x "community" e.title words)
    description ← lift (scan x "community" e.description_markdown words)
    let e' = scanned_event title description call.now e
    case_row ← on_cases (submit_case x (combine_scan_results title description) (submission e'))
    pure (record e' { moderation_case_id = case_id_of case_row })

  abbrev pub log_event : String → CampusEvent → Tables → Tables
  log_event action e w = record w {
    audit =
        record_success action "event" (some (x.uuid_text e.id)) call.request_id (some actor.user_id)
          (some actor.username) w.audit;
  }

  abbrev pub event_completion : ℕ → CampusEvent → Tables → Completion CommunityResponse
  event_completion status e w = record {
    response_status = status;
    response_body = record {
      content = event_content (event_data actor e w);
      request_id = call.request_id;
      timestamp = call.now;
    };
    resource_type = some "event";
    resource_id = some (x.uuid_text e.id);
  }

  abbrev pub event_request : String → Request
  event_request endpoint = record {
    scope = record {
      user_id = actor.user_id;
      endpoint = endpoint;
      idempotency_key = call.idempotency_key;
    };
    request_hash = call.request_hash;
    record_id = call.record_id;
    now = call.now;
  }

  unfoldable pub create_work : NewEvent → Exec Tables (Completion CommunityResponse)
  unfolding scan_event
  create_work n = do
    e ← scan_event (new_event actor n call)
    modify (λ w. record w { events = e ∷ w.events })
    done ← gets (event_completion 201 e)
    modify (log_event "community.event.create" e)
    pure done

  unfoldable pub create : NewEvent → Exec Tables (Answer CommunityResponse)
  unfolding create_work once
  create n = do
    raise_if (are_invalid n.starts_at n.ends_at n.registration_deadline call.now) event_time_invalid
    atomically (once registration_records (event_request "POST /api/v1/events") (create_work n))

  -- The guards of `update` after the event is found.
  abbrev pub check_update : CampusEvent → ℕ → EventChanges → Exec Tables (Unit {0})
  check_update e version c = do
    raise_if (is_forbidden actor e) permission_denied
    raise_if (not (e.version == version)) community_resource_version_conflict
    raise_if (is_final e.status) event_state_invalid
    raise_if
        (are_invalid (get_or c.starts_at e.starts_at) (get_or c.ends_at e.ends_at)
          (get_or c.registration_deadline e.registration_deadline) call.now)
        event_time_invalid
    raise_if (ltb (get_or c.capacity e.capacity) e.registered_count) event_capacity_invalid

  abbrev pub next_version : CampusEvent → CampusEvent
  next_version e = record e { version = e.version + 1; updated_at = call.now }

  unfoldable pub update_body : ℕ → ℕ → EventChanges → Exec Tables EventData
  unfolding get_for_update write_event scan_event
  update_body event_id version c = do
    events ← gets (λ w. w.events)
    e ← require (get_for_update event_id events) event_not_found
    check_update e version c
    scanned ← scan_event (changed_event c e)
    let e' = next_version scanned
    modify (λ w. record w { events = write_event e' w.events })
    modify (log_event "community.event.update" e')
    gets (event_data actor e')

  unfoldable pub update : ℕ → ℕ → EventChanges → Exec Tables EventData
  unfolding update_body
  update event_id version c = atomically (update_body event_id version c)

  unfoldable pub cancel_work : ℕ → ℕ → String → Exec Tables (Completion CommunityResponse)
  unfolding get_for_update write_event
  cancel_work event_id version reason = do
    events ← gets (λ w. w.events)
    e ← require (get_for_update event_id events) event_not_found
    raise_if (is_forbidden actor e) permission_denied
    raise_if (not (e.version == version)) community_resource_version_conflict
    raise_if (not (is_cancellable e.status)) event_state_invalid
    let e' = cancelled_event reason call.now e
    modify (λ w. record w { events = write_event e' w.events })
    done ← gets (event_completion 200 e')
    modify (log_event "community.event.cancel" e')
    pure done

  unfoldable pub cancel : ℕ → ℕ → String → Exec Tables (Answer CommunityResponse)
  unfolding cancel_work once
  cancel event_id version reason = atomically (
      once registration_records
        (event_request ("POST /api/v1/events/" ++ (x.uuid_text event_id ++ "/cancel")))
        (cancel_work event_id version reason))
