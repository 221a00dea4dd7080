-- ===== src/Campus/WorkOrder/Service/Creation.antt =====
-- What `create` does: its guards, the new order with its number, and the consistency of the tables.
use campus_pilots.Base.{
  false, some, ◌∷◌, ◌≡◌, ◌⊎◌, inl, inr, refl, arith, ◌==◌, Option-cases, All, All-map, All-and,
  ==_refl,
}
use campus_pilots.Errors.{AppError, campus_not_found}
use campus_pilots.Exec.{ok, raised, Result-cases}
use campus_pilots.Exec.Keeps.{Leads}
use campus_pilots.Platform.Idempotency.Endpoint.Keeps.{endpoint-Leads}
use campus_pilots.Platform.Audit.{record_success}
use campus_pilots.Campus.WorkOrder.{
  Campus, OrderNo, WorkOrder, WorkOrderActor, CreateWorkOrderCommand, Tables,
}
use campus_pilots.Campus.WorkOrder.Store.{get_enabled_campus, allocate_order_no}
use campus_pilots.Campus.WorkOrder.Timeline.{next, first, IsFresh, Timeline-fresh}
use campus_pilots.Campus.WorkOrder.Service.{Call, Externals, work_order_records}
use campus_pilots.Campus.WorkOrder.Service.Create.{
  new_order, creation_event, create_completion, create_work, create_request, create,
}
use campus_pilots.Campus.WorkOrder.Service.History.{IsSound, other-IsConsistent}

module _ (x : Externals) (actor : WorkOrderActor) (command : CreateWorkOrderCommand)
    (call : Call) where
  abbrev pub created : Tables → OrderNo → Tables
  created w n = record w {
    work_orders = new_order actor command call n ∷ w.work_orders;
    events = creation_event actor command call ∷ w.events;
    audit =
        record_success "work_order.create" "work_order" (some (x.uuid_text call.new_id))
          call.request_id (some actor.user_id) (some actor.username) w.audit;
  }

  -- A creation either raises and changes nothing, or the campus is enabled and a number is left;
  -- then the tables and the response are as written here.
  pub create_cases :
      (w : Tables)
      → ((e : AppError) × (create_work x actor command call w ≡ (raised e, w)))
        ⊎ ((c : Campus) × (n : OrderNo) × (get_enabled_campus command.campus_code w.campuses
              ≡ some c)
            × (allocate_order_no (x.shanghai_date call.now) w.work_orders ≡ ok n)
            × (create_work x actor command call w
                ≡ (ok (create_completion x call (new_order actor command call n)), created w n)))
  unfolding create_work
  create_cases w = elim (Option-cases (get_enabled_campus command.campus_code w.campuses)) [
    | inl q ↦ inl (campus_not_found, ground (arith, q))
    | inr (c, q) ↦
        elim (Result-cases (allocate_order_no (x.shanghai_date call.now) w.work_orders)) [
          | inr (e, a) ↦ inl (e, ground (arith, q, a))
          | inl (n, a) ↦ inr (c, n, q, a, ground (arith, q, a))
        ]
  ]

  -- The UUID of the new order is used nowhere.
  pub record IsUnused (w : Tables) : Type 0 where
    pub in_events : IsFresh call.new_id w.events
    pub in_orders : All (λ (o : WorkOrder). (call.new_id == o.id) ≡ false) w.work_orders
    pub sound : IsSound w

  created-IsSound : (w : Tables) (n : OrderNo) → IsUnused w → IsSound (created w n)
  created-IsSound w n h = (
    record {
      timeline =
          next (==_refl call.new_id) refl refl refl first
            (Timeline-fresh call.new_id w.events h.in_events);
      versioned = refl;
      assigned = refl;
      explained = λ e. cc;
      noted = λ e. cc;
    },
    All-map _ _ (λ o k. other-IsConsistent _ w.events o k.0 k.1) w.work_orders
        (All-and (λ (o : WorkOrder). (call.new_id == o.id) ≡ false) _ w.work_orders h.in_orders
          h.sound),
  )

  create_work-IsSound : Leads IsUnused IsSound (create_work x actor command call)
  create_work-IsSound w h = elim (create_cases w) [
    | inl (e, q) ↦ rw q h.sound
    | inr (c, n, q, a, r) ↦ rw r (created-IsSound w n h)
  ]

  -- A creation request under a UUID that no order and no event carries, whether it succeeds or
  -- raises, leaves every order consistent with its history.
  pub create-IsSound : (w : Tables) → IsUnused w → IsSound (create x actor command call w).1
  unfolding create
  create-IsSound =
      endpoint-Leads work_order_records IsUnused IsSound (λ w h. h.sound)
        (λ rows w h. record { in_events = h.in_events; in_orders = h.in_orders; sound = h.sound })
        (λ rows w h. h) (create_request x actor command call) (create_work x actor command call)
        create_work-IsSound
