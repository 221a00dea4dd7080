-- ===== src/Campus/WorkOrder/Service/History.antt =====
-- Every request leaves the orders consistent with their histories.
use campus_pilots.Base.{
  ℕ, suc, true, false, some, List, ◌∷◌, ◌≡◌, refl, arith, ◌==◌, All, is_some, ==_refl, inl, inr,
  All-find, All-update_where,
}
use campus_pilots.Campus.WorkOrder.{
  completed, rejected, WorkOrder, WorkOrderEvent, Tables, WorkOrderActor,
  TransitionWorkOrderCommand,
}
use campus_pilots.Campus.WorkOrder.Store.{next_sequence, write_order, get_visible_for_update}
use campus_pilots.Campus.WorkOrder.StateMachine.{effects_of, TransitionEffects}
use campus_pilots.Campus.WorkOrder.StateMachine.Matrix.{
  Edge, rank-Edge, allowed_of_Edge, apply-Edge, apply-effects_of,
}
use campus_pilots.Campus.WorkOrder.Timeline.{
  Timeline, next, other, after, IsConsistent, last_sequence-Timeline, is_served,
}
use campus_pilots.Campus.WorkOrder.Service.{Call, Externals, work_order_records}
use campus_pilots.Campus.WorkOrder.Service.Transition.{
  changed_order, transition_event, transition_work, transition, transition_request,
}
use campus_pilots.Campus.WorkOrder.Service.Outcome.{Transitions, transitioned, transition_cases}
use campus_pilots.Exec.Keeps.{Keeps}
use campus_pilots.Platform.Idempotency.Endpoint.Keeps.{endpoint-Leads}

module _ (actor : WorkOrderActor) (command : TransitionWorkOrderCommand) (call : Call)
    (o : WorkOrder) where
  -- The order after the effects of a transition.
  abbrev moved : WorkOrder
  moved =
      changed_order actor command o
        (effects_of command.target_status command.reason command.completion_note call.now)

  pub moved_fields :
      (moved.id ≡ o.id) × (moved.version ≡ suc o.version) × (moved.status ≡ command.target_status)
  unfolding changed_order
  moved_fields = ground arith

  moved_assigned :
      Edge o.status command.target_status
      → is_some o.assigned_to ≡ is_served o.status
      → is_some moved.assigned_to ≡ is_served command.target_status
  unfolding changed_order
  moved_assigned e h = ground (arith, allowed_of_Edge e)

  moved_explained : command.target_status ≡ rejected → is_some moved.rejection_reason ≡ true
  unfolding changed_order
  moved_explained e = ground arith

  moved_noted : command.target_status ≡ completed → is_some moved.completion_note ≡ true
  unfolding changed_order
  moved_noted e = ground arith

  moved_elsewhere : (k : ℕ) → (k == moved.id) ≡ false → (o.id == k) ≡ false
  moved_elsewhere k h = ground (arith, moved_fields)

  abbrev logged : List WorkOrderEvent → WorkOrderEvent
  logged es =
      transition_event actor command call o moved
        (effects_of command.target_status command.reason command.completion_note call.now)
        (next_sequence o.id es)

  -- The new event continues the history of the order.
  moved-Timeline :
      (es : List WorkOrderEvent)
      → Edge o.status command.target_status
      → Timeline o.id es o.version (some o.status)
      → Timeline moved.id (logged es ∷ es) moved.version (some moved.status)
  unfolding next_sequence
  moved-Timeline es e t =
      let (same_id, one_more, target) = moved_fields in
      rw (same_id, one_more, target)
        (next (==_refl o.id) (omega (arith, last_sequence-Timeline t)) refl refl (after e) t)

  moved-IsConsistent :
      (es : List WorkOrderEvent)
      → Edge o.status command.target_status
      → IsConsistent es o
      → IsConsistent (logged es ∷ es) moved
  moved-IsConsistent es e c =
      let (same_id, one_more, target) = moved_fields in
      record {
        timeline = moved-Timeline es e c.timeline;
        versioned = rw target (omega (arith, one_more, c.versioned, rank-Edge e));
        assigned = rw target (moved_assigned e c.assigned);
        explained = rw target moved_explained;
        noted = rw target moved_noted;
      }

-- An event of another order changes no history.
pub other-IsConsistent :
    (e : WorkOrderEvent) (es : List WorkOrderEvent) (o : WorkOrder)
    → (e.work_order_id == o.id) ≡ false
    → IsConsistent es o
    → IsConsistent (e ∷ es) o
other-IsConsistent e es o h c = record {
  timeline = other h c.timeline;
  versioned = c.versioned;
  assigned = c.assigned;
  explained = c.explained;
  noted = c.noted;
}

-- What holds of the tables between two requests.
abbrev pub IsSound : Tables → Type 0
IsSound w = All (IsConsistent w.events) w.work_orders

module _ (x : Externals) where
  transitioned-IsSound :
      (actor : WorkOrderActor) (id : ℕ) (command : TransitionWorkOrderCommand) (call : Call)
      (w : Tables) (o : WorkOrder)
      → (id ≡ o.id)
      → Edge o.status command.target_status
      → IsConsistent w.events o
      → IsSound w
      → IsSound (
          transitioned x actor id command call w o
            (effects_of command.target_status command.reason command.completion_note call.now))
  unfolding write_order
  transitioned-IsSound actor id command call w o same e c h = rw same (
      All-update_where (IsConsistent w.events) _ _ _
        (λ other hit k. moved-IsConsistent actor command call o w.events e c)
        (λ other miss k.
          other-IsConsistent _ w.events other (moved_elsewhere actor command call o other.id miss)
            k)
        w.work_orders h)

  found-IsConsistent :
      (actor : WorkOrderActor) (id : ℕ) (command : TransitionWorkOrderCommand) (call : Call)
      (w : Tables) (o : WorkOrder) (fx : TransitionEffects)
      → Transitions x actor id command call w o fx
      → IsSound w
      → (id ≡ o.id) × IsConsistent w.events o
  unfolding get_visible_for_update
  found-IsConsistent actor id command call w o fx t h =
      let (c, hit) = All-find (IsConsistent w.events) _ w.work_orders h t.found in (ground arith, c)

  transition_work-IsSound :
      (actor : WorkOrderActor) (id : ℕ) (command : TransitionWorkOrderCommand) (call : Call)
      → Keeps IsSound (transition_work x actor id command call)
  transition_work-IsSound actor id command call w h =
      elim (transition_cases x actor id command call w) [
        | inl (e, q) ↦ rw q h
        | inr (o, fx, t, q) ↦
            let (same, c) = found-IsConsistent actor id command call w o fx t h in
            rw (q, apply-effects_of _ _ _ _ _ t.applied)
              (transitioned-IsSound actor id command call w o same (apply-Edge _ _ _ _ _ t.applied)
                c h)
      ]

  -- A transition request, whether it succeeds or raises, keeps every order consistent with its
  -- history.
  pub transition-IsSound :
      (actor : WorkOrderActor) (id : ℕ) (command : TransitionWorkOrderCommand) (call : Call)
      (w : Tables)
      → IsSound w
      → IsSound (transition x actor id command call w).1
  unfolding transition
  transition-IsSound actor id command call =
      endpoint-Leads work_order_records IsSound IsSound (λ w h. h) (λ rows w h. h) (λ rows w h. h)
        (transition_request x actor id command call) (transition_work x actor id command call)
        (transition_work-IsSound actor id command call)
