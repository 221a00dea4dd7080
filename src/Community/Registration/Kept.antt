-- ===== src/Community/Registration/Kept.antt =====
-- `register` and `cancel` keep the counters of the events exact and within the capacity.
use campus_pilots.Base.{
  ℕ, ◌+◌, Bool, true, false, ◌&&◌, some, List, ◌≡◌, inl, inr, refl, arith, ◌==◌, leb, sym,
  Bool-cases, if◌then◌else◌, eq→==,
}
use campus_pilots.Exec.Keeps.{Keeps, atomically-Leads}
use campus_pilots.Platform.Idempotency.Endpoint.Keeps.{endpoint-Leads}
use campus_pilots.Community.Event.{
  CampusEvent, EventRegistration, Tables, is_registered, get_for_update, write_registration,
}
use campus_pilots.Community.Registration.{
  Actor, Call, Externals, register, register_work, register_request, registered_row, store_row,
  counted_event, is_new, cancel, cancel_body, withdrawn_row, released_event, release,
  registration_records,
}
use campus_pilots.Community.Registration.Counts.{
  seats, IsKeyed, IsKeyed-write, seats-write, row_key,
}
use campus_pilots.Community.Registration.Seats.{
  IsCounted, IsSeated, events-written, found_event, stored-IsKeyed, stored-seats, row_of, signed_up,
  register_cases, cancel_cases,
}

module _ (x : Externals) (actor : Actor) (event_id : ℕ) (call : Call) where
  module _ (w : Tables) (e : CampusEvent) (h : IsSeated w)
      (found : get_for_update event_id w.events ≡ some e) where
    rows_after : List EventRegistration
    rows_after =
        store_row (row_of x actor event_id call w)
          (registered_row event_id actor.user_id call.now (row_of x actor event_id call w))
          w.registrations

    IsCounted-after :
        (fresh : Bool)
        → is_new (row_of x actor event_id call w) ≡ fresh
        → (fresh && leb e.capacity e.registered_count) ≡ false
        → IsCounted rows_after (counted_event fresh call.now e)
    unfolding rows_after
    IsCounted-after true c room =
        let (k, same) = found_event event_id w.events w.registrations found h.events_counted in
        let s =
          stored-seats event_id actor.user_id call.now w.registrations h.rows_keyed _ refl e.id in
        record {
          counted = ground (arith, k.counted, s, c, eq→== event_id e.id (sym same));
          fits = ground (arith, k.fits, room);
        }
    IsCounted-after false c room =
        let (k, same) = found_event event_id w.events w.registrations found h.events_counted in
        let s =
          stored-seats event_id actor.user_id call.now w.registrations h.rows_keyed _ refl e.id in
        record { counted = ground (arith, k.counted, s, c); fits = k.fits }

    others_after : (id : ℕ) → (id == e.id) ≡ false → seats id rows_after ≡ seats id w.registrations
    unfolding rows_after
    others_after id miss =
        let (k, same) = found_event event_id w.events w.registrations found h.events_counted in
        let s =
          stored-seats event_id actor.user_id call.now w.registrations h.rows_keyed _ refl id in
        ground (arith, s, same, miss)

    same_id : (fresh : Bool) → (counted_event fresh call.now e).id ≡ e.id
    same_id true = refl
    same_id false = refl

    signed_up-IsSeated :
        (is_new (row_of x actor event_id call w) && leb e.capacity e.registered_count) ≡ false
        → IsSeated (signed_up x actor event_id call e w)
    unfolding rows_after
    signed_up-IsSeated room =
        let keyed_after =
          stored-IsKeyed event_id actor.user_id call.now w.registrations h.rows_keyed _ refl in
        elim (Bool-cases (is_new (row_of x actor event_id call w))) [
          | inl c ↦ rw c (record {
            events_counted =
                events-written w.registrations rows_after e (counted_event true call.now e) refl
                  (IsCounted-after true c (rw c at room)) others_after w.events h.events_counted;
            rows_keyed = keyed_after;
          })
          | inr c ↦ rw c (record {
            events_counted =
                events-written w.registrations rows_after e (counted_event false call.now e) refl
                  (IsCounted-after false c refl) others_after w.events h.events_counted;
            rows_keyed = keyed_after;
          })
        ]

  register_work-Keeps : Keeps IsSeated (register_work x actor event_id call)
  register_work-Keeps w h = elim (register_cases x actor event_id call w) [
    | inl (err, q) ↦ rw q h
    | inr (e, q, p, d, room, r) ↦ rw r (signed_up-IsSeated w e h q room)
  ]

  -- A registration request, whether it succeeds or raises, keeps every event's counter equal to the
  -- number of its registered rows and within its capacity, and one row for an event and a user.
  pub register-IsSeated : (w : Tables) → IsSeated w → IsSeated (register x actor event_id call w).1
  unfolding register
  register-IsSeated =
      endpoint-Leads registration_records IsSeated IsSeated (λ w h. h)
        (λ rows w h. record { events_counted = h.events_counted; rows_keyed = h.rows_keyed })
        (λ rows w h. record { events_counted = h.events_counted; rows_keyed = h.rows_keyed })
        (register_request x actor event_id call) (register_work x actor event_id call)
        register_work-Keeps

  module _ (w : Tables) (e : CampusEvent) (r : EventRegistration) (h : IsSeated w)
      (found : get_for_update event_id w.events ≡ some e)
      (row : row_of x actor event_id call w ≡ some r) (taken : is_registered r.status ≡ true) where
    withdrawn : List EventRegistration
    withdrawn = write_registration (withdrawn_row call.now r) w.registrations

    withdrawn-seats :
        (id : ℕ) → seats id withdrawn + (if event_id == id then 1 else 0) ≡ seats id w.registrations
    unfolding withdrawn
    withdrawn-seats id =
        let key = row_key event_id actor.user_id w.registrations row in
        grind (
          arith,
          key,
          taken,
          seats-write w.registrations h.rows_keyed event_id actor.user_id r
              (withdrawn_row call.now r) row key id,
        )

    IsCounted-withdrawn : IsCounted withdrawn (released_event call.now e)
    IsCounted-withdrawn =
        let (k, same) = found_event event_id w.events w.registrations found h.events_counted in
        record {
          counted = ground (arith, k.counted, withdrawn-seats e.id, eq→== event_id e.id (sym same));
          fits = ground (arith, k.fits);
        }

    others_withdrawn :
        (id : ℕ) → (id == e.id) ≡ false → seats id withdrawn ≡ seats id w.registrations
    others_withdrawn id miss =
        let (k, same) = found_event event_id w.events w.registrations found h.events_counted in
        ground (arith, withdrawn-seats id, same, miss)

    withdrawn-IsKeyed : IsKeyed withdrawn
    unfolding withdrawn
    withdrawn-IsKeyed =
        IsKeyed-write w.registrations h.rows_keyed event_id actor.user_id r
          (withdrawn_row call.now r) row (row_key event_id actor.user_id w.registrations row)

    released-IsSeated : IsSeated (release x actor call e r w)
    unfolding withdrawn
    released-IsSeated = rw taken (record {
      events_counted =
          events-written w.registrations withdrawn e (released_event call.now e) refl
            IsCounted-withdrawn others_withdrawn w.events h.events_counted;
      rows_keyed = withdrawn-IsKeyed;
    })

  release-IsSeated :
      (w : Tables) (e : CampusEvent) (r : EventRegistration)
      → IsSeated w
      → get_for_update event_id w.events ≡ some e
      → row_of x actor event_id call w ≡ some r
      → IsSeated (release x actor call e r w)
  release-IsSeated w e r h found row = elim (Bool-cases (is_registered r.status)) [
    | inl taken ↦ released-IsSeated w e r h found row taken
    | inr gone ↦ rw gone h
  ]

  -- A cancellation request, whether it succeeds or raises, keeps every event's counter equal to the
  -- number of its registered rows and within its capacity, and one row for an event and a user.
  pub cancel-IsSeated : (w : Tables) → IsSeated w → IsSeated (cancel x actor event_id call w).1
  unfolding cancel
  cancel-IsSeated =
      atomically-Leads IsSeated IsSeated (cancel_body x actor event_id call) (λ w h. h)
        λ w h. elim (cancel_cases x actor event_id call w) [
          | inl (err, q) ↦ rw q h
          | inr (e, r, q, d, row, c) ↦ rw c (release-IsSeated w e r h q row)
        ]
