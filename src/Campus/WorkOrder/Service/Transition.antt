-- ===== src/Campus/WorkOrder/Service/Transition.antt =====
-- `WorkOrderService.transition`.
use Prim.Native.String.{◌++◌}
use campus_pilots.Base.{
  ℕ, ◌+◌, Bool, true, false, not, ◌&&◌, none, some, List, ◌∷◌, ◌==◌, if◌then◌else◌,
}
use campus_pilots.Base.Text.{strip}
use campus_pilots.Errors.{permission_denied, resource_version_conflict, work_order_not_found}
use campus_pilots.Exec.{
  Result, ok, raised, Exec, pure, gets, modify, require, raise_if, lift, atomically, ◌>>=◌, ◌>>◌,
}
use campus_pilots.Platform.Idempotency.Endpoint.{Answer, Completion, Request, once}
use campus_pilots.Platform.Audit.{record_success}
use campus_pilots.Campus.WorkOrder.{
  WorkOrderStatus, accepted, cancelled, WorkOrder, WorkOrderEvent, WorkOrderScope, WorkOrderActor,
  TransitionWorkOrderCommand, order_data, SuccessResponse, Tables, at_transition,
}
use campus_pilots.Campus.WorkOrder.StateMachine.{
  Update, TransitionEffects, assigned_to, apply, set_attrs,
}
use campus_pilots.Campus.WorkOrder.Store.{
  member, in_staff_scope, get_visible_for_update, write_order, next_sequence,
}
use campus_pilots.Campus.WorkOrder.Service.{
  work_order_records, transition_body, Call, Externals, actor_role,
}

abbrev pub is_cancelled : WorkOrderStatus → Bool
is_cancelled cancelled = true
is_cancelled _ = false

abbrev pub owner_cancel : WorkOrderActor → WorkOrder → WorkOrderStatus → Bool
owner_cancel actor o target = o.created_by == actor.user_id && is_cancelled target

-- `if target_status == "accepted": effects.updates["assigned_to"] = actor.user_id`
abbrev pub with_assignee : WorkOrderStatus → ℕ → List Update → List Update
with_assignee accepted user_id us = assigned_to user_id ∷ us
with_assignee _ user_id us = us

-- The order after the loop of `setattr` and `version += 1`.
unfoldable pub changed_order :
    WorkOrderActor → TransitionWorkOrderCommand → WorkOrder → TransitionEffects → WorkOrder
unfolding set_attrs
changed_order actor command o effects =
    let o' = set_attrs o (with_assignee command.target_status actor.user_id effects.updates) in
    record o' { version = o'.version + 1 }

abbrev pub transition_event :
    WorkOrderActor
    → TransitionWorkOrderCommand
    → Call
    → WorkOrder
    → WorkOrder
    → TransitionEffects
    → ℕ
    → WorkOrderEvent
transition_event actor command call before after effects sequence = record {
  id = call.event_id;
  work_order_id = before.id;
  sequence_no = sequence;
  event_type = effects.event_type;
  from_status = some before.status;
  to_status = after.status;
  actor_user_id = actor.user_id;
  actor_role = actor_role actor;
  reason = some (strip command.reason);
  snapshot = at_transition after.status after.version after.assigned_to;
  created_at = call.now;
}

-- The guards between the lock on the order and the state machine.
unfoldable pub authorize :
    WorkOrderActor
    → List WorkOrderScope
    → TransitionWorkOrderCommand
    → WorkOrder
    → Result (Unit {0})
unfolding in_staff_scope
authorize actor scopes command o =
    if owner_cancel actor o command.target_status
    then ok tt
    else if not (member "work_order:transition" actor.permissions)
    then raised permission_denied
    else if not (in_staff_scope o scopes)
    then raised work_order_not_found
    else ok tt

module _ (x : Externals) where
  abbrev pub transition_completion : ℕ → Call → WorkOrder → Completion SuccessResponse
  transition_completion id call after = record {
    response_status = 200;
    response_body = record {
      content = order_data after none;
      request_id = call.request_id;
      timestamp = call.now;
    };
    resource_type = some "work_order";
    resource_id = some (x.uuid_text id);
  }

  unfoldable pub transition_work :
      WorkOrderActor
      → ℕ
      → TransitionWorkOrderCommand
      → Call
      → Exec Tables (Completion SuccessResponse)
  unfolding get_visible_for_update authorize apply changed_order write_order next_sequence
  transition_work actor id command call = do
    scopes ← gets (λ w. w.scopes actor.user_id)
    orders ← gets (λ w. w.work_orders)
    o ← require (get_visible_for_update id actor.user_id scopes orders) work_order_not_found
    lift (authorize actor scopes command o)
    raise_if (not (o.version == command.version)) resource_version_conflict
    effects ←
        lift (apply o.status command.target_status command.reason command.completion_note call.now)
    let o' = changed_order actor command o effects
    sequence ← gets (λ w. next_sequence id w.events)
    modify (λ w. record w {
      work_orders = write_order o' w.work_orders;
      events = transition_event actor command call o o' effects sequence ∷ w.events;
      audit =
          record_success "work_order.transition" "work_order" (some (x.uuid_text id))
            call.request_id (some actor.user_id) (some actor.username) w.audit;
    })
    pure (transition_completion id call o')

  abbrev pub transition_request : WorkOrderActor → ℕ → TransitionWorkOrderCommand → Call → Request
  transition_request actor id command call = record {
    scope = record {
      user_id = actor.user_id;
      endpoint = "POST /api/v1/work-orders/" ++ (x.uuid_text id ++ "/transitions");
      idempotency_key = call.idempotency_key;
    };
    request_hash = x.canonical_request_hash (transition_body (x.uuid_text id) command);
    record_id = call.record_id;
    now = call.now;
  }

  unfoldable pub transition :
      WorkOrderActor → ℕ → TransitionWorkOrderCommand → Call → Exec Tables (Answer SuccessResponse)
  unfolding transition_work once
  transition actor id command call = atomically (
      once work_order_records (transition_request actor id command call)
        (transition_work actor id command call))
