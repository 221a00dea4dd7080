-- ===== src/Community/EventService/Kept.antt =====
-- The event service keeps the counters of the events exact and within the capacity.
use Prim.Native.String.{◌++◌}
use campus_pilots.Base.{
  ℕ, ◌≤◌, String, some, ◌==◌, ◌≡◌, refl, arith, inl, inr, Option-cases, Bool-cases, All, ap,
}
use campus_pilots.Exec.Keeps.{Keeps, atomically-Leads}
use campus_pilots.Platform.Idempotency.Endpoint.Keeps.{endpoint-Leads}
use campus_pilots.Platform.Moderation.{Texts}
use campus_pilots.Community.Event.{CampusEvent, Tables, get_for_update, write_event}
use campus_pilots.Community.Registration.{registration_records}
use campus_pilots.Community.Registration.Counts.{seats}
use campus_pilots.Community.Registration.Seats.{IsCounted, IsSeated, events-written, found_event}
use campus_pilots.Community.EventService.{
  EventActor, EventCall, NewEvent, EventChanges, changed_event, cancelled_event, is_forbidden,
  are_invalid,
}
use campus_pilots.Community.EventService.Operations.{
  create_work, create, update_body, update, cancel_work, cancel, event_request, next_version,
}
use campus_pilots.Community.EventService.{is_cancellable}
use campus_pilots.Community.EventService.Seats.{
  SameRows, same-IsSeated, after_scan, IsUnused, create_work-Leads, check_cases,
}

module _ (x : Texts) (actor : EventActor) (call : EventCall) where
  -- An event that was found is rewritten with the same count, which still fits.
  rewritten :
      (event_id : ℕ) (e e' : CampusEvent) (w w' : Tables)
      → IsSeated w
      → SameRows w w'
      → get_for_update event_id w.events ≡ some e
      → e'.id ≡ e.id
      → e'.registered_count ≡ e.registered_count
      → e.registered_count ≤ e'.capacity
      → All (IsCounted w'.registrations) (write_event e' w'.events)
  rewritten event_id e e' w w' h rows found same_id same_count fits =
      let (k, same) = found_event event_id w.events w.registrations found h.events_counted in
      rw (rows.0, rows.1)
        (events-written w.registrations w.registrations e e' same_id
          (record {
            counted =
                omega (arith, same_count, k.counted, ap (λ id. seats id w.registrations) same_id);
            fits = omega (arith, same_count, fits);
          })
          (λ id miss. refl) w.events h.events_counted)

  update_found :
      (event_id version : ℕ) (c : EventChanges) (e : CampusEvent) (w : Tables)
      → IsSeated w
      → get_for_update event_id w.events ≡ some e
      → IsSeated (update_body x actor call event_id version c w).1
  unfolding update_body
  update_found event_id version c e w h q = elim (check_cases x actor call e version c w) [
    | inl (err, r) ↦ rw q (rw r h)
    | inr (r, room) ↦ rw q (
        rw r (
          after_scan x actor call IsSeated (changed_event c e) _ w h λ e' w' same rows. record {
            events_counted =
                rewritten event_id e (next_version x actor call e') w w' h rows q same.0 same.1
                  (ground (arith, room, same));
            rows_keyed = (same-IsSeated w w' rows h).rows_keyed;
          }))
  ]

  update_body-Keeps :
      (event_id version : ℕ) (c : EventChanges)
      → Keeps IsSeated (update_body x actor call event_id version c)
  unfolding update_body
  update_body-Keeps event_id version c w h =
      elim (Option-cases (get_for_update event_id w.events)) [
        | inl q ↦ rw q h
        | inr (e, q) ↦ update_found event_id version c e w h q
      ]

  cancel_work-Keeps :
      (event_id version : ℕ) (reason : String)
      → Keeps IsSeated (cancel_work x actor call event_id version reason)
  unfolding cancel_work
  cancel_work-Keeps event_id version reason w h =
      elim (Option-cases (get_for_update event_id w.events)) [
        | inl q ↦ rw q h
        | inr (e, q) ↦ elim (Bool-cases (is_forbidden actor e)) [
          | inl a ↦ rw q (rw a h)
          | inr a ↦ elim (Bool-cases (e.version == version)) [
            | inr b ↦ rw q (rw a (rw b h))
            | inl b ↦ elim (Bool-cases (is_cancellable e.status)) [
              | inr d ↦ rw q (rw a (rw b (rw d h)))
              | inl d ↦ rw q (
                  rw a (
                    rw b (
                      rw d (record {
                        events_counted =
                            rewritten event_id e (cancelled_event reason call.now e) w w h
                              (refl, refl) q refl refl
                              (found_event event_id w.events w.registrations q
                                h.events_counted).0.fits;
                        rows_keyed = h.rows_keyed;
                      }))))
            ]
          ]
        ]
      ]

  -- A creation under a UUID that no registration carries, whether it succeeds or raises, keeps
  -- every event's counter equal to the number of its registered rows and within its capacity.
  pub create-IsSeated :
      (n : NewEvent) (w : Tables)
      → seats call.new_id w.registrations ≡ 0
      → IsSeated w
      → IsSeated (create x actor call n w).1
  unfolding create
  create-IsSeated n w free h =
      elim (Bool-cases (are_invalid n.starts_at n.ends_at n.registration_deadline call.now)) [
        | inl e ↦ rw e h
        | inr e ↦ rw e (
            endpoint-Leads registration_records (IsUnused x actor call) IsSeated (λ w h. h.seated)
              (λ rows w h. record {
                no_rows = h.no_rows;
                seated = record {
                  events_counted = h.seated.events_counted;
                  rows_keyed = h.seated.rows_keyed;
                };
              })
              (λ rows w h. record { events_counted = h.events_counted; rows_keyed = h.rows_keyed })
              (event_request x actor call "POST /api/v1/events") (create_work x actor call n)
              (create_work-Leads x actor call n) w (record { no_rows = free; seated = h }))
      ]

  -- An update, whether it succeeds or raises, keeps every event's counter equal to the number of
  -- its registered rows and within its capacity, the new capacity included.
  pub update-IsSeated :
      (event_id version : ℕ) (c : EventChanges) (w : Tables)
      → IsSeated w
      → IsSeated (update x actor call event_id version c w).1
  unfolding update
  update-IsSeated event_id version c w h =
      atomically-Leads IsSeated IsSeated (update_body x actor call event_id version c) (λ w h. h)
        (update_body-Keeps event_id version c) w h

  -- The cancellation of an event, whether it succeeds or raises, keeps the same.
  pub cancel-IsSeated :
      (event_id version : ℕ) (reason : String) (w : Tables)
      → IsSeated w
      → IsSeated (cancel x actor call event_id version reason w).1
  unfolding cancel
  cancel-IsSeated event_id version reason w h =
      endpoint-Leads registration_records IsSeated IsSeated (λ w h. h)
        (λ rows w h. record { events_counted = h.events_counted; rows_keyed = h.rows_keyed })
        (λ rows w h. record { events_counted = h.events_counted; rows_keyed = h.rows_keyed })
        (event_request x actor call ("POST /api/v1/events/" ++ (x.uuid_text event_id ++ "/cancel")))
        (cancel_work x actor call event_id version reason)
        (cancel_work-Keeps event_id version reason) w h
