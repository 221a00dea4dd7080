-- ===== src/Campus/WorkOrder.antt =====
-- The rows of the work-order tables (backend/app/modules/campus_service/models.py) and the commands
-- and answers of work_orders.py. Ids are UUIDs and times are microseconds, both as numbers.
pub mod StateMachine
pub mod Digits
pub mod Store
pub mod Service
pub mod Timeline
pub mod Numbers
mod Tests
use campus_pilots.Base.{ℕ, String, Bool, Option, List}
use campus_pilots.Platform.Idempotency.{IdempotencyRecord}
use campus_pilots.Platform.Audit.{AuditLog}

pub data WorkOrderStatus : Type 0 where
  submitted accepted processing completed cancelled rejected : WorkOrderStatus

pub data FaultCategory : Type 0 where
  electric plumbing network furniture door_window other : FaultCategory

-- A text as its code points.
abbrev pub OrderNo : Type 0
OrderNo = List ℕ

pub record WorkOrder : Type 0 where
  pub id : ℕ
  pub order_no : OrderNo
  pub created_by : ℕ
  pub campus_code : String
  pub dormitory_area : String
  pub building : String
  pub room : String
  pub fault_category : FaultCategory
  pub description : String
  pub preferred_start_at : ℕ
  pub preferred_end_at : ℕ
  pub status : WorkOrderStatus
  pub assigned_to : Option ℕ
  pub assigned_department_id : Option ℕ
  pub rejection_reason : Option String
  pub completion_note : Option String
  pub version : ℕ
  pub submitted_at : ℕ
  pub accepted_at : Option ℕ
  pub processing_at : Option ℕ
  pub completed_at : Option ℕ
  pub cancelled_at : Option ℕ
  pub rejected_at : Option ℕ
  pub created_at : ℕ
  pub updated_at : ℕ

-- The `snapshot` of an event; the order's id in it is the event's own.
pub data Snapshot : Type 0 where
  at_creation : WorkOrderStatus → String → FaultCategory → ℕ → Snapshot
  at_transition : WorkOrderStatus → ℕ → Option ℕ → Snapshot

pub record WorkOrderEvent : Type 0 where
  pub id : ℕ
  pub work_order_id : ℕ
  pub sequence_no : ℕ
  pub event_type : WorkOrderStatus
  pub from_status : Option WorkOrderStatus
  pub to_status : WorkOrderStatus
  pub actor_user_id : ℕ
  pub actor_role : String
  pub reason : Option String
  pub snapshot : Snapshot
  pub created_at : ℕ

pub record WorkOrderRating : Type 0 where
  pub id : ℕ
  pub work_order_id : ℕ
  pub user_id : ℕ
  pub score : ℕ
  pub comment : Option String
  pub created_at : ℕ

pub record Campus : Type 0 where
  pub code : String
  pub enabled : Bool

-- The dormitory areas of one campus that a member of staff serves.
pub record WorkOrderScope : Type 0 where
  pub campus_code : String
  pub dormitory_areas : List String

pub record WorkOrderActor : Type 0 where
  pub user_id : ℕ
  pub username : String
  pub roles : List String
  pub permissions : List String

pub record CreateWorkOrderCommand : Type 0 where
  pub campus_code : String
  pub dormitory_area : String
  pub building : String
  pub room : String
  pub fault_category : FaultCategory
  pub description : String
  pub preferred_start_at : ℕ
  pub preferred_end_at : ℕ

pub record TransitionWorkOrderCommand : Type 0 where
  pub target_status : WorkOrderStatus
  pub reason : String
  pub completion_note : Option String
  pub version : ℕ

pub record RateWorkOrderCommand : Type 0 where
  pub score : ℕ
  pub comment : Option String

-- The `data` of a response: `work_order_data` of an order, or the new rating.
pub data ResponseData : Type 0 where
  order_data : WorkOrder → Option WorkOrderRating → ResponseData
  rating_data : WorkOrderRating → ResponseData

pub record SuccessResponse : Type 0 where
  pub content : ResponseData
  pub request_id : String
  pub timestamp : ℕ

-- The tables that the service reads and writes.
pub record Tables : Type 0 where
  pub campuses : List Campus
  pub work_orders : List WorkOrder
  pub events : List WorkOrderEvent
  pub ratings : List WorkOrderRating
  pub scopes : ℕ → List WorkOrderScope
  pub idempotency : List (IdempotencyRecord SuccessResponse)
  pub audit : List AuditLog
