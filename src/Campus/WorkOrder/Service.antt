-- ===== src/Campus/WorkOrder/Service.antt =====
-- `WorkOrderService` (backend/app/modules/campus_service/work_orders.py): `create`, `transition` and
-- `rate` stand in the modules below.
pub mod Create
pub mod Transition
pub mod Rate
pub mod Outcome
pub mod History
pub mod Ratings
pub mod Reach
pub mod Creation
pub mod Repeat
use Prim.Native.Nat.{Ordering}
use Prim.Native.String
use campus_pilots.Base.{ℕ, String, List, [], ◌∷◌, refl, if◌then◌else◌}
use campus_pilots.Platform.Idempotency.Endpoint.{HasRecords}
use campus_pilots.Campus.WorkOrder.{
  WorkOrderActor, CreateWorkOrderCommand, TransitionWorkOrderCommand, RateWorkOrderCommand,
  SuccessResponse, Tables,
}
use campus_pilots.Campus.WorkOrder.Store.{member}

instance abbrev pub work_order_records : HasRecords Tables SuccessResponse
work_order_records = record {
  records = λ w. w.idempotency;
  with_records = λ rows w. record w { idempotency = rows };
  records-with = λ rows w. refl;
  with-records = λ w. refl;
}

-- The dictionaries `request_body` that are hashed.
pub data RequestBody : Type 0 where
  create_body : CreateWorkOrderCommand → RequestBody
  transition_body : String → TransitionWorkOrderCommand → RequestBody
  rate_body : String → RateWorkOrderCommand → RequestBody

-- What a call brings beside its command: its key, its id, the clock and the fresh UUIDs.
pub record Call : Type 0 where
  pub idempotency_key : String
  pub request_id : String
  pub now : ℕ
  pub record_id : ℕ
  pub new_id : ℕ
  pub event_id : ℕ

-- `min(role_codes)`
unfoldable pub min_code : String → List String → String
min_code a [] = a
min_code a (b ∷ bs) = min_code (elim (String.compare a b) [ Ordering.gt ↦ b | _ ↦ a ]) bs

unfoldable pub actor_role : WorkOrderActor → String
unfolding min_code
actor_role actor =
    if member "student" actor.roles
    then "student"
    else elim actor.roles [ [] ↦ "authenticated" | code ∷ codes ↦ min_code code codes ]

-- `str(uuid)`, `canonical_request_hash` of platform/idempotency.py (the SHA-256 of the sorted JSON
-- text), and the calendar day of an instant in Shanghai as `strftime("%Y%m%d")` writes it.
pub record Externals : Type 0 where
  pub uuid_text : ℕ → String
  pub canonical_request_hash : RequestBody → String
  pub shanghai_date : ℕ → List ℕ
