-- ===== src/Campus/WorkOrder/Timeline.antt =====
-- The history of an order: its events, newest first, are numbered without a gap and follow the
-- edges of the state machine.
use campus_pilots.Base.{
  ℕ, zero, suc, ◌+◌, Bool, true, false, Option, none, some, List, [], ◌∷◌, ◌≡◌, refl, arith, ◌==◌,
  All, is_some,
}
use campus_pilots.Campus.WorkOrder.{
  WorkOrderStatus, submitted, accepted, processing, completed, rejected, WorkOrder, WorkOrderEvent,
}
use campus_pilots.Campus.WorkOrder.Store.{last_sequence}
use campus_pilots.Campus.WorkOrder.StateMachine.Matrix.{Edge, rank}

-- The first event brings `submitted`, every later one follows an edge.
pub data Follows : Option WorkOrderStatus → WorkOrderStatus → Type 0 where
  first : Follows none submitted
  after : {s t : WorkOrderStatus} → Edge s t → Follows (some s) t

-- `Timeline id es n s`: the events of the order in `es` are n in number and lead to the status s.
pub data Timeline (id : ℕ) : List WorkOrderEvent → ℕ → Option WorkOrderStatus → Type 0 where
  start : Timeline id [] zero none
  other :
      {e : WorkOrderEvent} {es : List WorkOrderEvent} {n : ℕ} {s : Option WorkOrderStatus}
      → (e.work_order_id == id) ≡ false
      → Timeline id es n s
      → Timeline id (e ∷ es) n s
  next :
      {e : WorkOrderEvent} {es : List WorkOrderEvent} {n : ℕ} {s : Option WorkOrderStatus}
      {t : WorkOrderStatus}
      → (e.work_order_id == id) ≡ true
      → e.sequence_no ≡ suc n
      → e.from_status ≡ s
      → e.to_status ≡ t
      → Follows s t
      → Timeline id es n s
      → Timeline id (e ∷ es) (suc n) (some t)

pub last_sequence-Timeline :
    {id n : ℕ} {es : List WorkOrderEvent} {s : Option WorkOrderStatus}
    → Timeline id es n s
    → last_sequence id es ≡ n
unfolding last_sequence
last_sequence-Timeline start = refl
last_sequence-Timeline (other h t) = rw h (last_sequence-Timeline t)
last_sequence-Timeline (next h q f g e t) = rw h (omega (arith, q, last_sequence-Timeline t))

-- No event of the order stands in the table.
abbrev pub IsFresh : ℕ → List WorkOrderEvent → Type 0
IsFresh id es = All (λ (e : WorkOrderEvent). (e.work_order_id == id) ≡ false) es

pub Timeline-fresh : (id : ℕ) (es : List WorkOrderEvent) → IsFresh id es → Timeline id es zero none
Timeline-fresh id [] h = start
Timeline-fresh id (e ∷ es) h = other h.0 (Timeline-fresh id es h.1)

abbrev pub is_served : WorkOrderStatus → Bool
is_served accepted = true
is_served processing = true
is_served completed = true
is_served _ = false

-- What holds of a stored order between two requests.
pub record IsConsistent (es : List WorkOrderEvent) (o : WorkOrder) : Type 0 where
  pub timeline : Timeline o.id es o.version (some o.status)
  pub versioned : o.version ≡ rank o.status + 1
  pub assigned : is_some o.assigned_to ≡ is_served o.status
  pub explained : o.status ≡ rejected → is_some o.rejection_reason ≡ true
  pub noted : o.status ≡ completed → is_some o.completion_note ≡ true
