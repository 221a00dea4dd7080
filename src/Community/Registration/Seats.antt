-- ===== src/Community/Registration/Seats.antt =====
-- `registered_count` is the number of registered rows and stays within the capacity.
use campus_pilots.Base.{
  ℕ, ◌+◌, ◌≤◌, Bool, true, false, not, ◌&&◌, ◌||◌, Option, none, some, List, ◌≡◌, ◌⊎◌, inl, inr,
  refl, arith, ◌==◌, ltb, leb, ap, Option-cases, Bool-cases, All, All-find, All-update_where,
  if◌then◌else◌, ==→eq,
}
use campus_pilots.Errors.{
  AppError, event_not_found, event_registration_closed, event_registration_not_found,
  event_capacity_full, event_registration_busy,
}
use campus_pilots.Exec.{ok, raised}
use campus_pilots.Community.Event.{
  CampusEvent, EventRegistration, Tables, is_published, is_registered, get_for_update,
  get_registration_for_update, write_event,
}
use campus_pilots.Community.Registration.{
  Actor, Call, Externals, register_work, register_completion, registered_row, store_row,
  counted_event, is_new, cancel_body, release, registration_records, log_event,
}
use campus_pilots.Community.Registration.Counts.{
  seats, takes_seat, IsKeyed, IsKeyed-add, IsKeyed-write, seats-write, row_key,
}

-- The counter of an event is the number of its registered users, and they fit.
pub record IsCounted (rows : List EventRegistration) (e : CampusEvent) : Type 0 where
  pub counted : e.registered_count ≡ seats e.id rows
  pub fits : e.registered_count ≤ e.capacity

pub record IsSeated (w : Tables) : Type 0 where
  pub events_counted : All (IsCounted w.registrations) w.events
  pub rows_keyed : IsKeyed w.registrations

-- One event's row and its registrations change together.
module _ (rows rows' : List EventRegistration) (e e' : CampusEvent) where
  pub events-written :
      (e'.id ≡ e.id)
      → IsCounted rows' e'
      → ((id : ℕ) → (id == e.id) ≡ false → seats id rows' ≡ seats id rows)
      → (events : List CampusEvent) → All (IsCounted rows) events
      → All (IsCounted rows') (write_event e' events)
  unfolding write_event
  events-written same new others events h =
      All-update_where (IsCounted rows) (IsCounted rows') (λ y. y.id == e'.id) (λ _. e')
        (λ y hit old. new)
        (λ y miss old. record {
          counted = ground (arith, old.counted, others y.id (ground (arith, same, miss)));
          fits = old.fits;
        })
        events h

pub found_event :
    (event_id : ℕ) (events : List CampusEvent) (rows : List EventRegistration) {e : CampusEvent}
    → get_for_update event_id events ≡ some e
    → All (IsCounted rows) events
    → IsCounted rows e × (e.id ≡ event_id)
unfolding get_for_update
found_event event_id events rows {e} q h =
    let (k, p) = All-find (IsCounted rows) _ events h q in
    (k, ground (arith, p, ==→eq e.id event_id))

one_more :
    (m n : ℕ) (a b : Bool)
    → m + (if a && b then 1 else 0) ≡ n + (if a then 1 else 0)
    → m ≡ n + (if not b && a then 1 else 0)
one_more m n true true h = omega arith
one_more m n true false h = omega arith
one_more m n false true h = omega arith
one_more m n false false h = omega arith

module _ (event_id user_id now : ℕ) (rows : List EventRegistration) (k : IsKeyed rows) where
  registered_key :
      {old : EventRegistration}
      → get_registration_for_update event_id user_id rows ≡ some old
      → ((registered_row event_id user_id now (some old)).event_id ≡ event_id)
        × ((registered_row event_id user_id now (some old)).user_id ≡ user_id)
  registered_key {old} q = elim (Bool-cases (is_registered old.status)) [
    | inl c ↦ rw c (row_key event_id user_id rows q)
    | inr c ↦ rw c (row_key event_id user_id rows q)
  ]

  pub stored-IsKeyed :
      (row : Option EventRegistration)
      → get_registration_for_update event_id user_id rows ≡ row
      → IsKeyed (store_row row (registered_row event_id user_id now row) rows)
  stored-IsKeyed none q = IsKeyed-add rows k (registered_row event_id user_id now none) q
  stored-IsKeyed (some old) q =
      IsKeyed-write rows k event_id user_id old (registered_row event_id user_id now (some old)) q
        (registered_key q)

  registered_takes :
      {old : EventRegistration}
      → get_registration_for_update event_id user_id rows ≡ some old
      → (id : ℕ) → takes_seat id (registered_row event_id user_id now (some old)) ≡ (event_id == id)
  registered_takes {old} q id =
      let key = (row_key event_id user_id rows q).0 in
      elim (Bool-cases (is_registered old.status)) [
        | inl c ↦ rw c (rw (c, key) (ground arith))
        | inr c ↦ rw c (rw key (ground arith))
      ]

  pub stored-seats :
      (row : Option EventRegistration)
      → get_registration_for_update event_id user_id rows ≡ row
      → (id : ℕ)
      → seats id (store_row row (registered_row event_id user_id now row) rows)
        ≡ seats id rows + (if is_new row && event_id == id then 1 else 0)
  stored-seats none q id = grind arith
  stored-seats (some old) q id =
      let new = registered_row event_id user_id now (some old) in
      let key = (row_key event_id user_id rows q).0 in
      let written = seats-write rows k event_id user_id old new q (registered_key q) id in
      one_more _ _ (event_id == id) (is_registered old.status) (
        rw (registered_takes q id) at
          (rw (ap (λ z. z == id && is_registered old.status) key) at written))

module _ (x : Externals) (actor : Actor) (event_id : ℕ) (call : Call) where
  abbrev pub row_of : Tables → Option EventRegistration
  row_of w = get_registration_for_update event_id actor.user_id w.registrations

  abbrev pub signed_up : CampusEvent → Tables → Tables
  signed_up e w =
      let written = record w {
        registrations =
            store_row (row_of w) (registered_row event_id actor.user_id call.now (row_of w))
              w.registrations;
        events = write_event (counted_event (is_new (row_of w)) call.now e) w.events;
      } in
      if is_new (row_of w)
      then log_event x "community.event.register" actor call event_id written
      else written

  -- A registration either raises and changes nothing, or the event is found and published, the
  -- deadline has not passed and the event has not begun, and a new registration has a free place;
  -- then the tables and the response are as written here.
  pub register_cases :
      (w : Tables)
      → ((err : AppError) × (register_work x actor event_id call w ≡ (raised err, w)))
        ⊎ ((e : CampusEvent) × (get_for_update event_id w.events ≡ some e)
            × (is_published e.status ≡ true)
            × ((ltb e.registration_deadline call.now || leb e.starts_at call.now) ≡ false)
            × ((is_new (row_of w) && leb e.capacity e.registered_count) ≡ false)
            × (register_work x actor event_id call w ≡ (
              ok (
                  register_completion x actor call
                    (registered_row event_id actor.user_id call.now (row_of w))
                    (counted_event (is_new (row_of w)) call.now e).registered_count
                    (w.profiles actor.user_id)),
              signed_up e w,
            )))
  unfolding register_work
  register_cases w = elim (Bool-cases call.lock_timeout) [
    | inl t ↦ inl (event_registration_busy, rw t refl)
    | inr t ↦ elim (Option-cases (get_for_update event_id w.events)) [
      | inl q ↦ inl (event_not_found, rw (t, q) refl)
      | inr (e, q) ↦ elim (Bool-cases (is_published e.status)) [
        | inr p ↦ inl (event_not_found, rw (t, q) (rw p refl))
        | inl p ↦
            elim (Bool-cases (ltb e.registration_deadline call.now || leb e.starts_at call.now)) [
              | inl d ↦ inl (event_registration_closed, rw (t, q) (rw p (rw d refl)))
              | inr d ↦ elim (Bool-cases (is_new (row_of w) && leb e.capacity e.registered_count)) [
                | inl f ↦ inl (event_capacity_full, rw (t, q) (rw p (rw d (rw f refl))))
                | inr f ↦ inr (e, q, p, d, f, rw (t, q) (rw p (rw d (rw f (ground arith)))))
              ]
            ]
      ]
    ]
  ]

  -- A cancellation either raises and changes nothing, or the event is found and has not begun and
  -- the actor has a row in it; then the tables are as `release` writes them.
  pub cancel_cases :
      (w : Tables)
      → ((err : AppError) × (cancel_body x actor event_id call w ≡ (raised err, w)))
        ⊎ ((e : CampusEvent) × (r : EventRegistration) × (get_for_update event_id w.events ≡ some e)
            × (leb e.starts_at call.now ≡ false)
            × (row_of w ≡ some r)
            × ((cancel_body x actor event_id call w).1 ≡ release x actor call e r w))
  unfolding cancel_body
  cancel_cases w = elim (Bool-cases call.lock_timeout) [
    | inl t ↦ inl (event_registration_busy, rw t refl)
    | inr t ↦ elim (Option-cases (get_for_update event_id w.events)) [
      | inl q ↦ inl (event_not_found, rw (t, q) refl)
      | inr (e, q) ↦ elim (Bool-cases (leb e.starts_at call.now)) [
        | inl d ↦ inl (event_registration_closed, rw (t, q) (rw d refl))
        | inr d ↦ elim (Option-cases (row_of w)) [
          | inl f ↦ inl (event_registration_not_found, rw (t, q) (rw d (rw f refl)))
          | inr (r, f) ↦ inr (e, r, q, d, f, rw (t, q) (rw d (rw f refl)))
        ]
      ]
    ]
  ]
