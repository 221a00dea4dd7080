-- ===== src/Campus/WorkOrder/Service/Ratings.antt =====
-- What `rate` does: its guards, and one rating at most for an order.
use campus_pilots.Base.{
  ℕ, ◌≤◌, Bool, true, none, some, List, [], ◌∷◌, ◌≡◌, ◌⊎◌, inl, inr, refl, arith, ◌==◌,
  Option-cases, Bool-cases, count_where,
}
use campus_pilots.Errors.{
  AppError, work_order_not_found, work_order_not_completed, work_order_already_rated,
}
use campus_pilots.Exec.{ok, raised}
use campus_pilots.Exec.Keeps.{Keeps}
use campus_pilots.Platform.Idempotency.Endpoint.Keeps.{endpoint-Leads}
use campus_pilots.Platform.Audit.{record_success}
use campus_pilots.Campus.WorkOrder.{
  WorkOrder, WorkOrderRating, WorkOrderActor, RateWorkOrderCommand, Tables,
}
use campus_pilots.Campus.WorkOrder.Store.{get_owner_for_update, get_rating}
use campus_pilots.Campus.WorkOrder.Service.{Call, Externals, work_order_records}
use campus_pilots.Campus.WorkOrder.Service.Rate.{
  is_completed, new_rating, rate_completion, rate_work, rate_request, rate,
}
use campus_pilots.Campus.WorkOrder.Service.History.{IsSound}

abbrev pub rates : ℕ → WorkOrderRating → Bool
rates id r = r.work_order_id == id

-- No order has two ratings.
abbrev pub IsRatedOnce : Tables → Type 0
IsRatedOnce w = (id : ℕ) → count_where (rates id) w.ratings ≤ 1

none-count :
    (id : ℕ) (ratings : List WorkOrderRating)
    → get_rating id ratings ≡ none
    → count_where (rates id) ratings ≡ 0
unfolding get_rating
none-count id [] h = refl
none-count id (r ∷ rs) h = ground (arith, none-count id rs)

module _ (x : Externals) (actor : WorkOrderActor) (id : ℕ) (command : RateWorkOrderCommand)
    (call : Call) where
  abbrev pub rated : Tables → Tables
  rated w = record w {
    ratings = new_rating actor id command call ∷ w.ratings;
    audit =
        record_success "work_order.rate" "work_order" (some (x.uuid_text id)) call.request_id
          (some actor.user_id) (some actor.username) w.audit;
  }

  -- A rating either raises and changes nothing, or the actor owns the order, it is completed and
  -- has no rating yet; then the tables and the response are as written here.
  pub rate_cases :
      (w : Tables)
      → ((e : AppError) × (rate_work x actor id command call w ≡ (raised e, w)))
        ⊎ ((o : WorkOrder) × (get_owner_for_update id actor.user_id w.work_orders ≡ some o)
            × (is_completed o.status ≡ true)
            × (get_rating id w.ratings ≡ none)
            × (rate_work x actor id command call w
                ≡ (ok (rate_completion x call (new_rating actor id command call)), rated w)))
  unfolding rate_work
  rate_cases w = elim (Option-cases (get_owner_for_update id actor.user_id w.work_orders)) [
    | inl q ↦ inl (work_order_not_found, ground (arith, q))
    | inr (o, q) ↦ elim (Bool-cases (is_completed o.status)) [
      | inr c ↦ inl (work_order_not_completed, ground (arith, q, c))
      | inl c ↦ elim (Option-cases (get_rating id w.ratings)) [
        | inr (r, g) ↦ inl (work_order_already_rated, ground (arith, q, c, g))
        | inl g ↦ inr (o, q, c, g, ground (arith, q, c, g))
      ]
    ]
  ]

  rated-IsRatedOnce :
      (w : Tables) → get_rating id w.ratings ≡ none → IsRatedOnce w → IsRatedOnce (rated w)
  rated-IsRatedOnce w g h k = ground (arith, h k, none-count id w.ratings g)

  rate_work-Keeps : Keeps (λ w. IsSound w × IsRatedOnce w) (rate_work x actor id command call)
  rate_work-Keeps w h = elim (rate_cases w) [
    | inl (e, q) ↦ rw q h
    | inr (o, q, c, g, r) ↦ rw r (h.0, rated-IsRatedOnce w g h.1)
  ]

  -- A rating request, whether it succeeds or raises, keeps the orders consistent and leaves no order
  -- with two ratings.
  pub rate-IsRatedOnce :
      (w : Tables)
      → IsSound w × IsRatedOnce w
      → IsSound (rate x actor id command call w).1 × IsRatedOnce (rate x actor id command call w).1
  unfolding rate
  rate-IsRatedOnce =
      endpoint-Leads work_order_records (λ w. IsSound w × IsRatedOnce w)
        (λ w. IsSound w × IsRatedOnce w) (λ w h. h) (λ rows w h. h) (λ rows w h. h)
        (rate_request x actor id command call) (rate_work x actor id command call) rate_work-Keeps
