-- ===== src/Campus/WorkOrder/Service/Create.antt =====
-- `WorkOrderService.create` and `_create`, with its event, audit entry and response.
use campus_pilots.Base.{none, some, ◌∷◌}
use campus_pilots.Errors.{campus_not_found}
use campus_pilots.Exec.{Exec, pure, gets, modify, require, lift, atomically, ◌>>=◌, ◌>>◌}
use campus_pilots.Platform.Idempotency.Endpoint.{Answer, Completion, Request, once}
use campus_pilots.Platform.Audit.{record_success}
use campus_pilots.Campus.WorkOrder.{
  OrderNo, WorkOrder, WorkOrderEvent, WorkOrderActor, CreateWorkOrderCommand, submitted, order_data,
  SuccessResponse, Tables, at_creation,
}
use campus_pilots.Campus.WorkOrder.Store.{get_enabled_campus, allocate_order_no}
use campus_pilots.Campus.WorkOrder.Service.{
  work_order_records, create_body, Call, Externals, actor_role,
}

abbrev pub new_order : WorkOrderActor → CreateWorkOrderCommand → Call → OrderNo → WorkOrder
new_order actor command call order_no = record {
  id = call.new_id;
  order_no = order_no;
  created_by = actor.user_id;
  campus_code = command.campus_code;
  dormitory_area = command.dormitory_area;
  building = command.building;
  room = command.room;
  fault_category = command.fault_category;
  description = command.description;
  preferred_start_at = command.preferred_start_at;
  preferred_end_at = command.preferred_end_at;
  status = submitted;
  assigned_to = none;
  assigned_department_id = none;
  rejection_reason = none;
  completion_note = none;
  version = 1;
  submitted_at = call.now;
  accepted_at = none;
  processing_at = none;
  completed_at = none;
  cancelled_at = none;
  rejected_at = none;
  created_at = call.now;
  updated_at = call.now;
}

abbrev pub creation_event : WorkOrderActor → CreateWorkOrderCommand → Call → WorkOrderEvent
creation_event actor command call = record {
  id = call.event_id;
  work_order_id = call.new_id;
  sequence_no = 1;
  event_type = submitted;
  from_status = none;
  to_status = submitted;
  actor_user_id = actor.user_id;
  actor_role = actor_role actor;
  reason = none;
  snapshot = at_creation submitted command.campus_code command.fault_category 1;
  created_at = call.now;
}

module _ (x : Externals) where
  abbrev pub create_completion : Call → WorkOrder → Completion SuccessResponse
  create_completion call order = record {
    response_status = 201;
    response_body = record {
      content = order_data order none;
      request_id = call.request_id;
      timestamp = call.now;
    };
    resource_type = some "work_order";
    resource_id = some (x.uuid_text call.new_id);
  }

  -- What `_create` does once the idempotency key is new.
  unfoldable pub create_work :
      WorkOrderActor → CreateWorkOrderCommand → Call → Exec Tables (Completion SuccessResponse)
  unfolding get_enabled_campus allocate_order_no
  create_work actor command call = do
    campuses ← gets (λ w. w.campuses)
    require (get_enabled_campus command.campus_code campuses) campus_not_found
    orders ← gets (λ w. w.work_orders)
    order_no ← lift (allocate_order_no (x.shanghai_date call.now) orders)
    let order = new_order actor command call order_no
    modify (λ w. record w {
      work_orders = order ∷ w.work_orders;
      events = creation_event actor command call ∷ w.events;
      audit =
          record_success "work_order.create" "work_order" (some (x.uuid_text call.new_id))
            call.request_id (some actor.user_id) (some actor.username) w.audit;
    })
    pure (create_completion call order)

  abbrev pub create_request : WorkOrderActor → CreateWorkOrderCommand → Call → Request
  create_request actor command call = record {
    scope = record {
      user_id = actor.user_id;
      endpoint = "POST /api/v1/work-orders";
      idempotency_key = call.idempotency_key;
    };
    request_hash = x.canonical_request_hash (create_body command);
    record_id = call.record_id;
    now = call.now;
  }

  unfoldable pub create :
      WorkOrderActor → CreateWorkOrderCommand → Call → Exec Tables (Answer SuccessResponse)
  unfolding create_work once
  create actor command call =
      atomically (
        once work_order_records (create_request actor command call)
          (create_work actor command call))
