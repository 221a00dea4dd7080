-- ===== src/Campus/WorkOrder/Tests.antt =====
-- Work orders on concrete tables.
use campus_pilots.Base.{
  ℕ, String, true, false, none, some, List, [], ◌∷◌, ◌++◌, ◌≡◌, ◌≢◌, ◌↔◌, refl, All, ◌≤◌, ◌==◌, map,
  if◌then◌else◌,
}
use campus_pilots.Exec.{Result, ok, raised}
use campus_pilots.Base.Text.{strip}
use campus_pilots.Platform.Idempotency.{begin, complete}
use campus_pilots.Platform.Idempotency.Endpoint.{Answer}
use campus_pilots.Campus.WorkOrder.{
  WorkOrderStatus, accepted, processing, completed, electric, OrderNo, WorkOrder, WorkOrderActor,
  CreateWorkOrderCommand, TransitionWorkOrderCommand, RateWorkOrderCommand, SuccessResponse, Tables,
}
use campus_pilots.Campus.WorkOrder.StateMachine.{TransitionEffects, apply, is_blank}
use campus_pilots.Campus.WorkOrder.StateMachine.Matrix.{Edge, apply_exact}
use campus_pilots.Campus.WorkOrder.Digits.{dashed_prefix, last_four, int_from, four_digits}
use campus_pilots.Campus.WorkOrder.Store.{allocate_order_no}
use campus_pilots.Campus.WorkOrder.Numbers.{allocate_order_no-fresh}
use campus_pilots.Campus.WorkOrder.Service.{Call, Externals}
use campus_pilots.Campus.WorkOrder.Service.Create.{create}
use campus_pilots.Campus.WorkOrder.Service.Transition.{transition}
use campus_pilots.Campus.WorkOrder.Service.Rate.{rate}
use campus_pilots.Campus.WorkOrder.Service.Creation.{IsUnused}
use campus_pilots.Campus.WorkOrder.Service.History.{IsSound}
use campus_pilots.Campus.WorkOrder.Service.Ratings.{IsRatedOnce}
use campus_pilots.Campus.WorkOrder.Service.Reach.{
  by_create, by_transition, by_rate, Reach, here, followed_by, Reach-IsSound,
}
use campus_pilots.Campus.WorkOrder.Service.Repeat.{create_replay, transition_replay, rate_replay}

abbrev externals : Externals
externals = record {
  uuid_text = λ n. "uuid";
  canonical_request_hash = λ b. "hash";
  shanghai_date = λ t. b'2' ∷ b'0' ∷ b'2' ∷ b'6' ∷ b'0' ∷ b'9' ∷ b'0' ∷ b'1' ∷ [];
}

abbrev student : WorkOrderActor
student = record { user_id = 1; username = "student"; roles = "student" ∷ []; permissions = [] }

abbrev staff : WorkOrderActor
staff = record {
  user_id = 2;
  username = "staff";
  roles = "repair_staff" ∷ [];
  permissions = "work_order:transition" ∷ [];
}

abbrev call_at : String → ℕ → Call
call_at key n = record {
  idempotency_key = key;
  request_id = "request";
  now = n;
  record_id = n;
  new_id = n;
  event_id = n;
}

abbrev request : CreateWorkOrderCommand
request = record {
  campus_code = "main";
  dormitory_area = "east";
  building = "3";
  room = "301";
  fault_category = electric;
  description = "The lamp is broken";
  preferred_start_at = 10;
  preferred_end_at = 20;
}

abbrev move : WorkOrderStatus → ℕ → TransitionWorkOrderCommand
move target version = record {
  target_status = target;
  reason = "next";
  completion_note = some "repaired";
  version = version;
}

abbrev stars : RateWorkOrderCommand
stars = record { score = 5; comment = some " quick " }

-- Nothing is stored but the campus and the staff's scope.
abbrev empty : Tables
empty = record {
  campuses = record { code = "main"; enabled = true } ∷ [];
  work_orders = [];
  events = [];
  ratings = [];
  scopes = λ u.
      if u == 2 then record { campus_code = "main"; dormitory_areas = "east" ∷ [] } ∷ [] else [];
  idempotency = [];
  audit = [];
}

abbrev one_order : Tables
one_order = (create externals student request (call_at "a" 7) empty).1

abbrev one_accepted : Tables
one_accepted = (transition externals staff 7 (move accepted 1) (call_at "b" 8) one_order).1

abbrev one_done : Tables
one_done =
    (transition externals staff 7 (move completed 3) (call_at "d" 10)
      (transition externals staff 7 (move processing 2) (call_at "c" 9) one_accepted).1).1

abbrev one_rated : Tables
one_rated = (rate externals student 7 stars (call_at "e" 11) one_done).1

abbrev path : Reach externals empty one_done
path =
    followed_by
      (followed_by
        (followed_by (followed_by here (by_create student request (call_at "a" 7) tt tt refl))
          (by_transition staff 7 (move accepted 1) (call_at "b" 8) refl))
        (by_transition staff 7 (move processing 2) (call_at "c" 9) refl))
      (by_transition staff 7 (move completed 3) (call_at "d" 10) refl)

abbrev answer_of : Result (Answer SuccessResponse) → Answer SuccessResponse
answer_of (ok a) = a
answer_of (raised e) = record { status_code = 500; body = none }

abbrev first_answer : Answer SuccessResponse
first_answer = answer_of (create externals student request (call_at "a" 7) empty).0

abbrev second_answer : Answer SuccessResponse
second_answer =
    answer_of (transition externals staff 7 (move accepted 1) (call_at "b" 8) one_order).0

abbrev third_answer : Answer SuccessResponse
third_answer = answer_of (rate externals student 7 stars (call_at "e" 11) one_done).0

done_before : IsSound one_done × IsRatedOnce one_done
done_before = Reach-IsSound externals {w = empty} {v = one_done} refl refl path

empty-IsUnused : IsUnused externals student request (call_at "a" 7) empty
empty-IsUnused = record { in_events = tt; in_orders = tt; sound = tt }

abbrev statuses : Tables → List WorkOrderStatus
statuses w = map (λ o. o.status) w.work_orders

abbrev scores : Tables → List ℕ
scores w = map (λ r. r.score) w.ratings

-- The order is completed and rated in the end.
order_is_done : (statuses one_rated ≡ completed ∷ []) × (scores one_rated ≡ 5 ∷ [])
unfolding create transition rate begin complete strip
order_is_done = (refl, refl)

Reach-IsSound_example : IsSound one_rated × IsRatedOnce one_rated
Reach-IsSound_example =
    Reach-IsSound externals {w = empty} {v = one_rated} refl refl
      (followed_by path (by_rate student 7 stars (call_at "e" 11) refl))

abbrev day : List ℕ
day = externals.shanghai_date 0

-- "WO-20260901-0002"
abbrev second_number : OrderNo
second_number = dashed_prefix day ++ four_digits 2

second_is_issued : allocate_order_no day one_order.work_orders ≡ ok second_number
unfolding allocate_order_no create begin complete
second_is_issued = refl

allocate_order_no-fresh_example :
    (sequence : ℕ) × (1 ≤ sequence)
    × (sequence ≤ 9999)
    × (second_number ≡ dashed_prefix day ++ four_digits sequence)
    × (int_from 0 (last_four second_number) ≡ sequence)
    × All (λ (o : WorkOrder). o.order_no ≢ second_number) one_order.work_orders
allocate_order_no-fresh_example =
    allocate_order_no-fresh day one_order.work_orders second_number second_is_issued

apply_exact_example :
    ((fx : TransitionEffects) × (apply processing completed "next" (some "repaired") 9 ≡ ok fx))
    ↔ (Edge processing completed × (completed ≡ completed → is_blank (some "repaired") ≡ false))
apply_exact_example = apply_exact processing completed "next" (some "repaired") 9

create_replay_example :
    create externals student request (call_at "a" 90) one_order ≡ (ok first_answer, one_order)
unfolding create begin complete
create_replay_example =
    create_replay externals student request (call_at "a" 7) (call_at "a" 90) empty one_order
      first_answer refl refl

transition_replay_example :
    transition externals staff 7 (move accepted 1) (call_at "b" 91) one_accepted
    ≡ (ok second_answer, one_accepted)
unfolding transition create begin complete
transition_replay_example =
    transition_replay externals staff 7 (move accepted 1) (call_at "b" 8) (call_at "b" 91) one_order
      one_accepted second_answer refl refl

rate_replay_example :
    rate externals student 7 stars (call_at "e" 92) one_rated ≡ (ok third_answer, one_rated)
unfolding rate transition create begin complete strip
rate_replay_example =
    rate_replay externals student 7 stars (call_at "e" 11) (call_at "e" 92) one_done one_rated
      third_answer refl refl
