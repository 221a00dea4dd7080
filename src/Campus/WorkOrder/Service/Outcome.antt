-- ===== src/Campus/WorkOrder/Service/Outcome.antt =====
-- How each request ends: it raises and has written nothing, or it succeeds and has passed every
-- guard of the code, with the tables written out.
use campus_pilots.Base.{
  ℕ, Option, some, ◌∷◌, ◌≡◌, ◌⊎◌, inl, inr, arith, ◌==◌, Bool-cases, Option-cases, ==→eq,
}
use campus_pilots.Errors.{AppError, work_order_not_found, resource_version_conflict}
use campus_pilots.Exec.{ok, raised, Result-cases}
use campus_pilots.Platform.Audit.{record_success}
use campus_pilots.Campus.WorkOrder.{WorkOrder, WorkOrderActor, TransitionWorkOrderCommand, Tables}
use campus_pilots.Campus.WorkOrder.StateMachine.{TransitionEffects, apply}
use campus_pilots.Campus.WorkOrder.Store.{get_visible_for_update, write_order, next_sequence}
use campus_pilots.Campus.WorkOrder.Service.{Call, Externals}
use campus_pilots.Campus.WorkOrder.Service.Transition.{
  changed_order, transition_event, authorize, transition_work, transition_completion,
}

module _ (x : Externals) (actor : WorkOrderActor) (id : ℕ) (command : TransitionWorkOrderCommand)
    (call : Call) (w : Tables) where
  abbrev pub found_order : Option WorkOrder
  found_order = get_visible_for_update id actor.user_id (w.scopes actor.user_id) w.work_orders

  -- The tables after a transition of `o` with these effects.
  abbrev pub transitioned : WorkOrder → TransitionEffects → Tables
  transitioned o fx =
      let o' = changed_order actor command o fx in
      record w {
        work_orders = write_order o' w.work_orders;
        events = transition_event actor command call o o' fx (next_sequence id w.events) ∷ w.events;
        audit =
            record_success "work_order.transition" "work_order" (some (x.uuid_text id))
              call.request_id (some actor.user_id) (some actor.username) w.audit;
      }

  -- A transition that succeeds on the order `o`.
  pub record Transitions (o : WorkOrder) (fx : TransitionEffects) : Type 0 where
    pub found : found_order ≡ some o
    pub authorized : authorize actor (w.scopes actor.user_id) command o ≡ ok tt
    pub current : o.version ≡ command.version
    pub applied :
        apply o.status command.target_status command.reason command.completion_note call.now ≡ ok fx

  -- A transition either raises and changes nothing, or the order is there and visible, the actor
  -- is authorized, the version is the expected one and the state machine accepts; then the tables
  -- and the response are as written here.
  pub transition_cases :
      ((e : AppError) × (transition_work x actor id command call w ≡ (raised e, w)))
      ⊎ ((o : WorkOrder) × (fx : TransitionEffects) × Transitions o fx
          × (transition_work x actor id command call w ≡ (
            ok (transition_completion x id call (changed_order actor command o fx)),
            transitioned o fx,
          )))
  unfolding transition_work
  transition_cases = elim (Option-cases found_order) [
    | inl q ↦ inl (work_order_not_found, ground (arith, q))
    | inr (o, q) ↦ elim (Result-cases (authorize actor (w.scopes actor.user_id) command o)) [
      | inr (e, a) ↦ inl (e, ground (arith, q, a))
      | inl (u, a) ↦ elim (Bool-cases (o.version == command.version)) [
        | inr v ↦ inl (resource_version_conflict, ground (arith, q, a, v))
        | inl v ↦
            elim (Result-cases (
              apply o.status command.target_status command.reason command.completion_note
                call.now)) [
                  | inr (e, f) ↦ inl (e, ground (arith, q, a, v, f))
                  | inl (fx, f) ↦ inr (
                    o,
                    fx,
                    record { found = q; authorized = a; current = ==→eq _ _ v; applied = f },
                    ground (arith, q, a, v, f),
                  )
                ]
      ]
    ]
  ]
