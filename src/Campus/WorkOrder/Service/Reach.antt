-- ===== src/Campus/WorkOrder/Service/Reach.antt =====
-- The tables that requests can reach, and what holds of all of them.
use campus_pilots.Base.{ℕ, ◌==◌, false, [], ◌≡◌, All, inl, inr, arith}
use campus_pilots.Exec.Keeps.{Keeps}
use campus_pilots.Platform.Idempotency.Endpoint.Keeps.{endpoint-Leads}
use campus_pilots.Campus.WorkOrder.{
  WorkOrder, WorkOrderActor, CreateWorkOrderCommand, TransitionWorkOrderCommand,
  RateWorkOrderCommand, Tables,
}
use campus_pilots.Campus.WorkOrder.Timeline.{IsFresh}
use campus_pilots.Campus.WorkOrder.Service.{Call, Externals, work_order_records}
use campus_pilots.Campus.WorkOrder.Service.Create.{create, create_request, create_work}
use campus_pilots.Campus.WorkOrder.Service.Transition.{
  transition, transition_request, transition_work,
}
use campus_pilots.Campus.WorkOrder.Service.Rate.{rate}
use campus_pilots.Campus.WorkOrder.Service.Outcome.{transition_cases}
use campus_pilots.Campus.WorkOrder.Service.History.{IsSound, transition-IsSound}
use campus_pilots.Campus.WorkOrder.Service.Creation.{create_cases, create-IsSound}
use campus_pilots.Campus.WorkOrder.Service.Ratings.{IsRatedOnce, rate-IsRatedOnce}

module _ (x : Externals) where
  -- One request; the UUID that a creation draws is used nowhere yet.
  pub data Step : Tables → Tables → Type 0 where
    by_create :
        {w w' : Tables} (actor : WorkOrderActor) (command : CreateWorkOrderCommand) (call : Call)
        → IsFresh call.new_id w.events
        → All (λ (o : WorkOrder). (call.new_id == o.id) ≡ false) w.work_orders
        → w' ≡ (create x actor command call w).1
        → Step w w'
    by_transition :
        {w w' : Tables} (actor : WorkOrderActor) (id : ℕ) (command : TransitionWorkOrderCommand)
        (call : Call)
        → w' ≡ (transition x actor id command call w).1
        → Step w w'
    by_rate :
        {w w' : Tables} (actor : WorkOrderActor) (id : ℕ) (command : RateWorkOrderCommand)
        (call : Call)
        → w' ≡ (rate x actor id command call w).1
        → Step w w'

  pub data Reach (w : Tables) : Tables → Type 0 where
    here : Reach w w
    followed_by : {v u : Tables} → Reach w v → Step v u → Reach w u

  create-IsRatedOnce :
      (actor : WorkOrderActor) (command : CreateWorkOrderCommand) (call : Call)
      → Keeps IsRatedOnce (create x actor command call)
  unfolding create
  create-IsRatedOnce actor command call =
      endpoint-Leads work_order_records IsRatedOnce IsRatedOnce (λ w h. h) (λ rows w h. h)
        (λ rows w h. h) (create_request x actor command call) (create_work x actor command call)
        λ w h. elim (create_cases x actor command call w) [
          | inl (e, q) ↦ rw q h
          | inr (c, n, q, a, r) ↦ rw r h
        ]

  transition-IsRatedOnce :
      (actor : WorkOrderActor) (id : ℕ) (command : TransitionWorkOrderCommand) (call : Call)
      → Keeps IsRatedOnce (transition x actor id command call)
  unfolding transition
  transition-IsRatedOnce actor id command call =
      endpoint-Leads work_order_records IsRatedOnce IsRatedOnce (λ w h. h) (λ rows w h. h)
        (λ rows w h. h) (transition_request x actor id command call)
        (transition_work x actor id command call)
        λ w h. elim (transition_cases x actor id command call w) [
          | inl (e, q) ↦ rw q h
          | inr (o, fx, t, q) ↦ rw q h
        ]

  Step-keeps : {w v : Tables} → Step w v → IsSound w × IsRatedOnce w → IsSound v × IsRatedOnce v
  Step-keeps {w} (by_create actor command call events orders q) h = rw q (
    create-IsSound x actor command call w
        (record { in_events = events; in_orders = orders; sound = h.0 }),
    create-IsRatedOnce actor command call w h.1,
  )
  Step-keeps {w} (by_transition actor id command call q) h = rw q (
    transition-IsSound x actor id command call w h.0,
    transition-IsRatedOnce actor id command call w h.1,
  )
  Step-keeps {w} (by_rate actor id command call q) h =
      rw q (rate-IsRatedOnce x actor id command call w h)

  -- From tables with no order and no rating, every sequence of creations, transitions and ratings,
  -- in which a creation draws a UUID that no order and no event carries, leads to tables in which
  -- each order has at most one rating and is consistent with its events: these are numbered without
  -- a gap and follow the edges of the state machine to its status, its version counts them and is
  -- the one of its status, and it has an assignee exactly if it was accepted, a reason if it is
  -- rejected and a note if it is completed.
  pub Reach-IsSound :
      {w v : Tables} → w.work_orders ≡ [] → w.ratings ≡ [] → Reach w v → IsSound v × IsRatedOnce v
  Reach-IsSound no_orders no_ratings here = (rw no_orders tt, λ id. rw no_ratings (omega arith))
  Reach-IsSound no_orders no_ratings (followed_by r st) =
      Step-keeps st (Reach-IsSound no_orders no_ratings r)
