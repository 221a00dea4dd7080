-- ===== src/Community/Registration/Counts.antt =====
-- The registrations of an event: one row for each user, counted by their status.
use campus_pilots.Base.{
  subst, sym, ℕ, ◌+◌, ◌≤◌, Bool, ◌&&◌, none, some, List, [], ◌∷◌, ◌≡◌, arith, ◌==◌, find,
  count_where, update_where, count-find, count-update_one, if◌then◌else◌, Bool-cases, inl, inr,
}
use campus_pilots.Community.Event.{
  EventRegistration, is_registered, keyed, get_registration_for_update, write_registration,
}

abbrev pub takes_seat : ℕ → EventRegistration → Bool
takes_seat event_id r = r.event_id == event_id && is_registered r.status

-- How many users are registered for the event.
abbrev pub seats : ℕ → List EventRegistration → ℕ
seats event_id rows = count_where (takes_seat event_id) rows

-- The primary key: one row for an event and a user.
abbrev pub IsKeyed : List EventRegistration → Type 0
IsKeyed rows = (event_id user_id : ℕ) → count_where (keyed event_id user_id) rows ≤ 1

found_key :
    (event_id user_id : ℕ) (rows : List EventRegistration) {r : EventRegistration}
    → find (keyed event_id user_id) rows ≡ some r
    → (r.event_id ≡ event_id) × (r.user_id ≡ user_id)
found_key event_id user_id [] h = cc
found_key event_id user_id (y ∷ ys) h = elim (Bool-cases (keyed event_id user_id y)) [
  | inl hit ↦ ground (arith, hit, h)
  | inr miss ↦ found_key event_id user_id ys (rw miss at h)
]

pub row_key :
    (event_id user_id : ℕ) (rows : List EventRegistration) {r : EventRegistration}
    → get_registration_for_update event_id user_id rows ≡ some r
    → (r.event_id ≡ event_id) × (r.user_id ≡ user_id)
unfolding get_registration_for_update
row_key event_id user_id rows h = found_key event_id user_id rows h

module _ (rows : List EventRegistration) (k : IsKeyed rows) where
  pub IsKeyed-add :
      (r : EventRegistration)
      → get_registration_for_update r.event_id r.user_id rows ≡ none
      → IsKeyed (r ∷ rows)
  unfolding get_registration_for_update
  IsKeyed-add r free e u = ground (arith, k e u, count-find (keyed r.event_id r.user_id) rows free)

  module _ (event_id user_id : ℕ) (old new : EventRegistration)
      (found : get_registration_for_update event_id user_id rows ≡ some old)
      (same : (new.event_id ≡ event_id) × (new.user_id ≡ user_id)) where
    -- Replacing a row changes a count by that row.
    replaced :
        (q : EventRegistration → Bool)
        → count_where q (write_registration new rows) + (if q old then 1 else 0)
          ≡ count_where q rows + (if q new then 1 else 0)
    unfolding write_registration get_registration_for_update
    replaced q =
        subst
          (λ p.
            count_where q (update_where p (λ _. new) rows) + (if q old then 1 else 0)
            ≡ count_where q rows + (if q new then 1 else 0))
          (λ i. keyed ((sym same.0) i) ((sym same.1) i))
          (count-update_one (keyed event_id user_id) q new rows found (k event_id user_id))

    pub IsKeyed-write : IsKeyed (write_registration new rows)
    unfolding get_registration_for_update
    IsKeyed-write e u =
        ground (arith, k e u, replaced (keyed e u), found_key event_id user_id rows found)

    pub seats-write :
        (id : ℕ)
        → seats id (write_registration new rows) + (if takes_seat id old then 1 else 0)
          ≡ seats id rows + (if takes_seat id new then 1 else 0)
    seats-write id = replaced (takes_seat id)
