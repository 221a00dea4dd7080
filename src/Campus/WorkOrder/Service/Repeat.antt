-- ===== src/Campus/WorkOrder/Service/Repeat.antt =====
-- A repeated request: the same key and the same body are answered once more and nothing is done.
use campus_pilots.Base.{ℕ, ◌≡◌, refl, inl, inr}
use campus_pilots.Exec.{ok}
use campus_pilots.Platform.Idempotency.Endpoint.{Answer}
use campus_pilots.Platform.Idempotency.Endpoint.Replay.{Frames, endpoint_replay}
use campus_pilots.Campus.WorkOrder.{
  WorkOrderActor, CreateWorkOrderCommand, TransitionWorkOrderCommand, RateWorkOrderCommand,
  SuccessResponse, Tables,
}
use campus_pilots.Campus.WorkOrder.Service.{Call, Externals, work_order_records}
use campus_pilots.Campus.WorkOrder.Service.Create.{create, create_request, create_work}
use campus_pilots.Campus.WorkOrder.Service.Transition.{
  transition, transition_request, transition_work,
}
use campus_pilots.Campus.WorkOrder.Service.Rate.{rate, rate_request, rate_work}
use campus_pilots.Campus.WorkOrder.Service.Outcome.{transition_cases}
use campus_pilots.Campus.WorkOrder.Service.Creation.{create_cases}
use campus_pilots.Campus.WorkOrder.Service.Ratings.{rate_cases}

module _ (x : Externals) (actor : WorkOrderActor) where
  create-Frames :
      (command : CreateWorkOrderCommand) (call : Call)
      → Frames work_order_records (create_work x actor command call)
  create-Frames command call w = elim (create_cases x actor command call w) [
    | inl (e, q) ↦ rw q refl
    | inr (c, n, q, a, r) ↦ rw r refl
  ]

  transition-Frames :
      (id : ℕ) (command : TransitionWorkOrderCommand) (call : Call)
      → Frames work_order_records (transition_work x actor id command call)
  transition-Frames id command call w = elim (transition_cases x actor id command call w) [
    | inl (e, q) ↦ rw q refl
    | inr (o, fx, t, q) ↦ rw q refl
  ]

  rate-Frames :
      (id : ℕ) (command : RateWorkOrderCommand) (call : Call)
      → Frames work_order_records (rate_work x actor id command call)
  rate-Frames id command call w = elim (rate_cases x actor id command call w) [
    | inl (e, q) ↦ rw q refl
    | inr (o, q, c, g, r) ↦ rw r refl
  ]

  -- A creation that was answered is answered the same way when the actor sends it again under the
  -- same key, whatever the time and the fresh ids are, and the tables do not change.
  pub create_replay :
      (command : CreateWorkOrderCommand) (call call' : Call) (w w' : Tables)
      (a : Answer SuccessResponse)
      → call'.idempotency_key ≡ call.idempotency_key
      → create x actor command call w ≡ (ok a, w')
      → create x actor command call' w' ≡ (ok a, w')
  unfolding create
  create_replay command call call' w w' a key h =
      endpoint_replay work_order_records (create_request x actor command call)
        (create_request x actor command call') a w w' (create_work x actor command call)
        (create_work x actor command call') (create-Frames command call) (rw key refl) refl h

  -- A transition that was answered is answered the same way when the actor sends it again under the
  -- same key, and the tables do not change, although the order has another status and version by
  -- then.
  pub transition_replay :
      (id : ℕ) (command : TransitionWorkOrderCommand) (call call' : Call) (w w' : Tables)
      (a : Answer SuccessResponse)
      → call'.idempotency_key ≡ call.idempotency_key
      → transition x actor id command call w ≡ (ok a, w')
      → transition x actor id command call' w' ≡ (ok a, w')
  unfolding transition
  transition_replay id command call call' w w' a key h =
      endpoint_replay work_order_records (transition_request x actor id command call)
        (transition_request x actor id command call') a w w'
        (transition_work x actor id command call) (transition_work x actor id command call')
        (transition-Frames id command call) (rw key refl) refl h

  -- A rating that was answered is answered the same way when the actor sends it again under the same
  -- key, and the tables do not change, although the order is rated by then.
  pub rate_replay :
      (id : ℕ) (command : RateWorkOrderCommand) (call call' : Call) (w w' : Tables)
      (a : Answer SuccessResponse)
      → call'.idempotency_key ≡ call.idempotency_key
      → rate x actor id command call w ≡ (ok a, w')
      → rate x actor id command call' w' ≡ (ok a, w')
  unfolding rate
  rate_replay id command call call' w w' a key h =
      endpoint_replay work_order_records (rate_request x actor id command call)
        (rate_request x actor id command call') a w w' (rate_work x actor id command call)
        (rate_work x actor id command call') (rate-Frames id command call) (rw key refl) refl h
