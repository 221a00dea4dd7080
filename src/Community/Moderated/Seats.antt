-- ===== src/Community/Moderated/Seats.antt =====
-- What the decision of a moderation case does to the seats of the events.
use campus_pilots.Base.{ℕ, ◌≡◌, refl, inl, inr, Option-cases, Bool-cases, All-find, find}
use campus_pilots.Exec.Keeps.{Keeps}
use campus_pilots.Community.Event.{CampusEvent, EventRegistration}
use campus_pilots.Community.Registration.Seats.{IsCounted, IsSeated, events-written}
use campus_pilots.Community.Moderated.{
  Decision, approved, rejected, escalated, has_id, is_case, judged, is_settled, apply,
}
use mathlib.Core.List.{List}

judged-IsCounted :
    (rows : List EventRegistration) (d : Decision) (now : ℕ) (e : CampusEvent)
    → IsCounted rows e
    → ((judged d now e).id ≡ e.id) × IsCounted rows (judged d now e)
judged-IsCounted rows approved now e h = (refl, record { counted = h.counted; fits = h.fits })
judged-IsCounted rows rejected now e h = (refl, record { counted = h.counted; fits = h.fits })
judged-IsCounted rows escalated now e h = (refl, h)

pub apply-IsSeated :
    (case_id target_id : ℕ) (d : Decision) (now : ℕ)
    → Keeps IsSeated (apply case_id target_id d now)
unfolding apply
apply-IsSeated case_id target_id d now w h =
    elim (Option-cases (find (has_id target_id) w.events)) [
      | inl missing ↦ rw missing h
      | inr (e, found) ↦ elim (Bool-cases (is_case case_id e.moderation_case_id)) [
        | inr other ↦ rw (found, other) h
        | inl own ↦ elim (Bool-cases (is_settled d e)) [
          | inl settled ↦ rw (found, own, settled) h
          | inr open_case ↦
              let counted =
                (All-find (IsCounted w.registrations) _ w.events h.events_counted found).0 in
              let (same, new) = judged-IsCounted w.registrations d now e counted in
              rw (found, own, open_case)
                (record {
                  events_counted =
                      events-written w.registrations w.registrations e (judged d now e) same new
                        (λ id other. refl) w.events h.events_counted;
                  rows_keyed = h.rows_keyed;
                })
        ]
      ]
    ]
