-- ===== src/Community/Reach.antt =====
-- The tables that requests on events and registrations, and decisions of their moderation cases, can reach: no event is overbooked.
use campus_pilots.Base.{ℕ, String, ◌≤◌, [], ◌≡◌, arith, All, All-map}
use campus_pilots.Platform.Moderation.{Texts}
use campus_pilots.Community.Event.{CampusEvent, Tables}
use campus_pilots.Community.Registration.{Actor, Call, Externals, register}
use campus_pilots.Community.Registration as Registration
use campus_pilots.Community.Registration.Counts.{seats}
use campus_pilots.Community.Registration.Seats.{IsCounted, IsSeated}
use campus_pilots.Community.Registration.Kept.{register-IsSeated}
use campus_pilots.Community.Registration.Kept as Registrations
use campus_pilots.Community.EventService.{EventActor, EventCall, NewEvent, EventChanges}
use campus_pilots.Community.EventService.Operations.{create, update, cancel}
use campus_pilots.Community.EventService.Kept.{create-IsSeated, update-IsSeated, cancel-IsSeated}
use campus_pilots.Community.Moderated.{Decision, apply}
use campus_pilots.Community.Moderated.Seats.{apply-IsSeated}

module _ (x : Texts) (y : Externals) where
  -- One request; the UUID that a creation draws is carried by no registration yet.
  pub data Step : Tables → Tables → Type 0 where
    by_register :
        {w w' : Tables} (actor : Actor) (event_id : ℕ) (call : Call)
        → w' ≡ (register y actor event_id call w).1
        → Step w w'
    by_withdrawal :
        {w w' : Tables} (actor : Actor) (event_id : ℕ) (call : Call)
        → w' ≡ (Registration.cancel y actor event_id call w).1
        → Step w w'
    by_create :
        {w w' : Tables} (actor : EventActor) (call : EventCall) (n : NewEvent)
        → seats call.new_id w.registrations ≡ 0
        → w' ≡ (create x actor call n w).1
        → Step w w'
    by_update :
        {w w' : Tables} (actor : EventActor) (call : EventCall) (event_id version : ℕ)
        (c : EventChanges)
        → w' ≡ (update x actor call event_id version c w).1
        → Step w w'
    by_cancel :
        {w w' : Tables} (actor : EventActor) (call : EventCall) (event_id version : ℕ)
        (reason : String)
        → w' ≡ (cancel x actor call event_id version reason w).1
        → Step w w'
    by_moderation :
        {w w' : Tables} (case_id target_id : ℕ) (d : Decision) (now : ℕ)
        → w' ≡ (apply case_id target_id d now w).1
        → Step w w'

  pub data Reach (w : Tables) : Tables → Type 0 where
    here : Reach w w
    followed_by : {v u : Tables} → Reach w v → Step v u → Reach w u

  Step-IsSeated : {w v : Tables} → Step w v → IsSeated w → IsSeated v
  Step-IsSeated {w} (by_register actor id call q) h = rw q (register-IsSeated y actor id call w h)
  Step-IsSeated {w} (by_withdrawal actor id call q) h =
      rw q (Registrations.cancel-IsSeated y actor id call w h)
  Step-IsSeated {w} (by_create actor call n free q) h =
      rw q (create-IsSeated x actor call n w free h)
  Step-IsSeated {w} (by_update actor call id version c q) h =
      rw q (update-IsSeated x actor call id version c w h)
  Step-IsSeated {w} (by_cancel actor call id version reason q) h =
      rw q (cancel-IsSeated x actor call id version reason w h)
  Step-IsSeated {w} (by_moderation case_id target_id d now q) h =
      rw q (apply-IsSeated case_id target_id d now w h)

  Reach-IsSeated : {w v : Tables} → w.events ≡ [] → w.registrations ≡ [] → Reach w v → IsSeated v
  Reach-IsSeated no_events no_rows here = record {
    events_counted = rw no_events tt;
    rows_keyed = λ e u. rw no_rows (omega arith);
  }
  Reach-IsSeated no_events no_rows (followed_by r st) =
      Step-IsSeated st (Reach-IsSeated no_events no_rows r)

  -- From tables with no event and no registration, every sequence of registrations, withdrawals,
  -- creations, updates, cancellations and decisions of moderation cases, in which a creation draws a
  -- UUID that no registered row carries, leads to tables in which each event's counter is the number
  -- of its registered participants, who are not more than its capacity.
  pub never_overbooked :
      {w v : Tables}
      → w.events ≡ []
      → w.registrations ≡ []
      → Reach w v
      → All
          (λ (e : CampusEvent).
            (e.registered_count ≡ seats e.id v.registrations)
            × (seats e.id v.registrations ≤ e.capacity))
          v.events
  never_overbooked {w} {v} no_events no_rows r =
      let h = Reach-IsSeated no_events no_rows r in
      All-map (IsCounted v.registrations) _ (λ e k. (k.counted, omega (arith, k.counted, k.fits)))
        v.events h.events_counted
