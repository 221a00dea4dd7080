-- ===== src/Community/EventService/Seats.antt =====
-- What the scan, the guards of `update` and the work of `create` do to the seats of the events.
use campus_pilots.Base.{
  ℕ, false, none, some, ◌∷◌, ltb, ◌==◌, ◌≡◌, refl, arith, ◌∙◌, inl, inr, Bool-cases, ◌⊎◌, ap,
}
use campus_pilots.Errors.{
  AppError, permission_denied, event_state_invalid, event_time_invalid, event_capacity_invalid,
  community_resource_version_conflict,
}
use campus_pilots.Exec.{Exec, resume, ok, raised, Result-cases}
use campus_pilots.Exec.Keeps.{Leads}
use campus_pilots.Platform.Moderation.{Texts}
use campus_pilots.Platform.Moderation.Scan.{scan, combine_scan_results}
use campus_pilots.Platform.Moderation.Case.{submit_case, needs_case, new_case, log_case}
use campus_pilots.Community.Event.{CampusEvent, Tables}
use campus_pilots.Community.Registration.{registration_records}
use campus_pilots.Community.Registration.Counts.{seats}
use campus_pilots.Community.Registration.Seats.{IsSeated}
use campus_pilots.Community.EventService.{
  EventActor, EventCall, NewEvent, EventChanges, scanned_event, new_event, get_or, is_forbidden,
  is_final, are_invalid,
}
use campus_pilots.Community.EventService.Operations.{
  scan_event, create_work, submission, check_update,
}

-- What a scan leaves of the event alone.
abbrev pub SameSeats : CampusEvent → CampusEvent → Type 0
SameSeats e e' =
    (e'.id ≡ e.id) × (e'.registered_count ≡ e.registered_count) × (e'.capacity ≡ e.capacity)

abbrev pub SameRows : Tables → Tables → Type 0
SameRows w w' = (w'.events ≡ w.events) × (w'.registrations ≡ w.registrations)

pub same-IsSeated : (w w' : Tables) → SameRows w w' → IsSeated w → IsSeated w'
same-IsSeated w w' rows h = record {
  events_counted = rw (rows.0, rows.1) h.events_counted;
  rows_keyed = rw rows.1 h.rows_keyed;
}

seats_same :
    (id : ℕ) (w w' : Tables) → SameRows w w' → seats id w'.registrations ≡ seats id w.registrations
seats_same id w w' rows = ap (seats id) rows.1

module _ (x : Texts) (actor : EventActor) (call : EventCall) where
  -- A scan raises and changes nothing, or it leaves the seats and the rows alone.
  scan_cases :
      (e : CampusEvent) (w : Tables)
      → ((err : AppError) × (scan_event x actor call e w ≡ (raised err, w)))
        ⊎ ((e' : CampusEvent) × (w' : Tables) × (scan_event x actor call e w ≡ (ok e', w'))
            × SameSeats e e'
            × SameRows w w')
  unfolding scan_event submit_case
  scan_cases e w = elim (Result-cases (scan x "community" e.title w.words)) [
    | inr (err, q) ↦ inl (err, rw q refl)
    | inl (title, q) ↦ elim (Result-cases (scan x "community" e.description_markdown w.words)) [
      | inr (err, r) ↦ inl (err, rw q (rw r refl))
      | inl (description, r) ↦
          let combined = combine_scan_results title description in
          let e' = scanned_event title description call.now e in
          let sub = submission x actor call e' in
          elim (Bool-cases (needs_case combined.action)) [
            | inl n ↦ inr (
              record e' { moderation_case_id = some call.case_id },
              record w { cases = new_case combined sub ∷ w.cases; audit = log_case x sub w.audit },
              rw q (rw r (rw n refl)),
              (refl, refl, refl),
              (refl, refl),
            )
            | inr n ↦ inr (
              record e' { moderation_case_id = none },
              w,
              rw q (rw r (rw n refl)),
              (refl, refl, refl),
              (refl, refl),
            )
          ]
    ]
  ]

  -- The state of the tables and the event after a scan, for what follows it.
  pub after_scan {κ} :
      {A : Type κ} (P : Tables → Type 0) (e : CampusEvent) (f : CampusEvent → Exec Tables A)
      (w : Tables)
      → P w
      → ((e' : CampusEvent) (w' : Tables) → SameSeats e e' → SameRows w w' → P (f e' w').1)
      → P (resume (scan_event x actor call e w).0 (scan_event x actor call e w).1 f).1
  after_scan P e f w h k = elim (scan_cases e w) [
    | inl (err, q) ↦ rw q h
    | inr (e', w', q, seats_same, rows_same) ↦ rw q (k e' w' seats_same rows_same)
  ]

  -- The UUID of the new event is used by no registration.
  pub record IsUnused (w : Tables) : Type 0 where
    pub no_rows : seats call.new_id w.registrations ≡ 0
    pub seated : IsSeated w

  pub create_work-Leads : (n : NewEvent) → Leads IsUnused IsSeated (create_work x actor call n)
  unfolding create_work
  create_work-Leads n w h =
      after_scan IsSeated (new_event actor n call) _ w h.seated λ e' w' same rows.
        let before = same-IsSeated w w' rows h.seated in
        let free = seats_same (new_event actor n call).id w w' rows ∙ h.no_rows in
        record {
          events_counted = (
            record { counted = ground (arith, same, free); fits = ground (arith, same) },
            before.events_counted,
          );
          rows_keyed = before.rows_keyed;
        }

  pub check_cases :
      (e : CampusEvent) (version : ℕ) (c : EventChanges) (w : Tables)
      → ((err : AppError) × (check_update x actor call e version c w ≡ (raised err, w)))
        ⊎ ((check_update x actor call e version c w ≡ (ok tt, w))
            × (ltb (get_or c.capacity e.capacity) e.registered_count ≡ false))
  check_cases e version c w = elim (Bool-cases (is_forbidden actor e)) [
    | inl a ↦ inl (permission_denied, rw a refl)
    | inr a ↦ elim (Bool-cases (e.version == version)) [
      | inr b ↦ inl (community_resource_version_conflict, rw a (rw b refl))
      | inl b ↦ elim (Bool-cases (is_final e.status)) [
        | inl d ↦ inl (event_state_invalid, rw a (rw b (rw d refl)))
        | inr d ↦
            elim (Bool-cases (
              are_invalid (get_or c.starts_at e.starts_at) (get_or c.ends_at e.ends_at)
                (get_or c.registration_deadline e.registration_deadline) call.now)) [
                  | inl t ↦ inl (event_time_invalid, rw a (rw b (rw d (rw t refl))))
                  | inr t ↦
                      elim (Bool-cases (ltb (get_or c.capacity e.capacity) e.registered_count)) [
                        | inl s ↦
                            inl (event_capacity_invalid, rw a (rw b (rw d (rw t (rw s refl)))))
                        | inr s ↦ inr (rw a (rw b (rw d (rw t (rw s refl)))), s)
                      ]
                ]
      ]
    ]
  ]
