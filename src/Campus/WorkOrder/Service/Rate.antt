-- ===== src/Campus/WorkOrder/Service/Rate.antt =====
-- `WorkOrderService.rate`.
use Prim.Native.String.{◌++◌}
use campus_pilots.Base.{
  ℕ, String, Bool, true, false, not, Option, none, some, ◌∷◌, is_some, if◌then◌else◌,
}
use campus_pilots.Base.Text.{strip, is_empty}
use campus_pilots.Errors.{work_order_not_found, work_order_not_completed, work_order_already_rated}
use campus_pilots.Exec.{Exec, pure, gets, modify, require, raise_if, atomically, ◌>>=◌, ◌>>◌}
use campus_pilots.Platform.Idempotency.Endpoint.{Answer, Completion, Request, once}
use campus_pilots.Platform.Audit.{record_success}
use campus_pilots.Campus.WorkOrder.{
  WorkOrderStatus, completed, WorkOrderRating, WorkOrderActor, RateWorkOrderCommand, rating_data,
  SuccessResponse, Tables,
}
use campus_pilots.Campus.WorkOrder.Store.{get_owner_for_update, get_rating}
use campus_pilots.Campus.WorkOrder.Service.{work_order_records, rate_body, Call, Externals}

abbrev pub is_completed : WorkOrderStatus → Bool
is_completed completed = true
is_completed _ = false

-- `comment.strip() if comment else None`
abbrev pub stripped_comment : Option String → Option String
stripped_comment none = none
stripped_comment (some c) = if is_empty c then none else some (strip c)

abbrev pub new_rating : WorkOrderActor → ℕ → RateWorkOrderCommand → Call → WorkOrderRating
new_rating actor id command call = record {
  id = call.new_id;
  work_order_id = id;
  user_id = actor.user_id;
  score = command.score;
  comment = stripped_comment command.comment;
  created_at = call.now;
}

module _ (x : Externals) where
  abbrev pub rate_completion : Call → WorkOrderRating → Completion SuccessResponse
  rate_completion call rating = record {
    response_status = 201;
    response_body = record {
      content = rating_data rating;
      request_id = call.request_id;
      timestamp = call.now;
    };
    resource_type = some "work_order_rating";
    resource_id = some (x.uuid_text rating.id);
  }

  unfoldable pub rate_work :
      WorkOrderActor → ℕ → RateWorkOrderCommand → Call → Exec Tables (Completion SuccessResponse)
  unfolding get_owner_for_update get_rating
  rate_work actor id command call = do
    orders ← gets (λ w. w.work_orders)
    o ← require (get_owner_for_update id actor.user_id orders) work_order_not_found
    raise_if (not (is_completed o.status)) work_order_not_completed
    ratings ← gets (λ w. w.ratings)
    raise_if (is_some (get_rating id ratings)) work_order_already_rated
    let rating = new_rating actor id command call
    modify (λ w. record w {
      ratings = rating ∷ w.ratings;
      audit =
          record_success "work_order.rate" "work_order" (some (x.uuid_text id)) call.request_id
            (some actor.user_id) (some actor.username) w.audit;
    })
    pure (rate_completion call rating)

  abbrev pub rate_request : WorkOrderActor → ℕ → RateWorkOrderCommand → Call → Request
  rate_request actor id command call = record {
    scope = record {
      user_id = actor.user_id;
      endpoint = "POST /api/v1/work-orders/" ++ (x.uuid_text id ++ "/rating");
      idempotency_key = call.idempotency_key;
    };
    request_hash = x.canonical_request_hash (rate_body (x.uuid_text id) command);
    record_id = call.record_id;
    now = call.now;
  }

  unfoldable pub rate :
      WorkOrderActor → ℕ → RateWorkOrderCommand → Call → Exec Tables (Answer SuccessResponse)
  unfolding rate_work once
  rate actor id command call = atomically (
      once work_order_records (rate_request actor id command call)
        (rate_work actor id command call))
