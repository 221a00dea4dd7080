-- ===== src/Campus/WorkOrder/StateMachine.antt =====
-- backend/app/modules/campus_service/work_order_state.py: the transition matrix and what a
-- transition writes.
pub mod Matrix
use campus_pilots.Base.{
  ℕ, String, Bool, true, false, not, Option, none, some, List, [], ◌∷◌, if◌then◌else◌, ◌&&◌,
}
use campus_pilots.Base.Text.{strip, is_empty}
use campus_pilots.Errors.{work_order_illegal_transition}
use campus_pilots.Exec.{Result, ok, raised}
use campus_pilots.Campus.WorkOrder.{
  WorkOrderStatus, submitted, accepted, processing, completed, cancelled, rejected, WorkOrder,
}

-- One entry of the dictionary `updates`.
pub data Update : Type 0 where
  status : WorkOrderStatus → Update
  updated_at accepted_at processing_at completed_at cancelled_at rejected_at : ℕ → Update
  completion_note rejection_reason : String → Update
  assigned_to : ℕ → Update

pub record TransitionEffects : Type 0 where
  pub event_type : WorkOrderStatus
  pub updates : List Update

abbrev pub allowed : WorkOrderStatus → WorkOrderStatus → Bool
allowed submitted accepted = true
allowed submitted rejected = true
allowed submitted cancelled = true
allowed accepted processing = true
allowed processing completed = true
allowed _ _ = false

-- `completion_note is None or not completion_note.strip()`
abbrev pub is_blank : Option String → Bool
is_blank none = true
is_blank (some text) = is_empty (strip text)

abbrev pub note_text : Option String → String
note_text none = ""
note_text (some text) = strip text

-- The entries beside `status` and `updated_at`.
abbrev pub extra_updates : WorkOrderStatus → String → Option String → ℕ → List Update
extra_updates accepted reason text now = accepted_at now ∷ []
extra_updates processing reason text now = processing_at now ∷ []
extra_updates completed reason text now = completed_at now ∷ completion_note (note_text text) ∷ []
extra_updates cancelled reason text now = cancelled_at now ∷ []
extra_updates rejected reason text now = rejected_at now ∷ rejection_reason (strip reason) ∷ []
extra_updates submitted reason text now = []

abbrev pub needs_note : WorkOrderStatus → Bool
needs_note completed = true
needs_note _ = false

abbrev pub effects_of : WorkOrderStatus → String → Option String → ℕ → TransitionEffects
effects_of target reason text now = record {
  event_type = target;
  updates = status target ∷ updated_at now ∷ extra_updates target reason text now;
}

unfoldable pub apply :
    WorkOrderStatus → WorkOrderStatus → String → Option String → ℕ → Result TransitionEffects
apply current target reason text now =
    if not (allowed current target)
    then raised work_order_illegal_transition
    else if needs_note target && is_blank text
    then raised work_order_illegal_transition
    else ok (effects_of target reason text now)

-- `setattr(work_order, key, value)`
unfoldable pub set_attr : WorkOrder → Update → WorkOrder
set_attr o (status s) = record o { status = s }
set_attr o (updated_at t) = record o { updated_at = t }
set_attr o (accepted_at t) = record o { accepted_at = some t }
set_attr o (processing_at t) = record o { processing_at = some t }
set_attr o (completed_at t) = record o { completed_at = some t }
set_attr o (cancelled_at t) = record o { cancelled_at = some t }
set_attr o (rejected_at t) = record o { rejected_at = some t }
set_attr o (completion_note s) = record o { completion_note = some s }
set_attr o (rejection_reason s) = record o { rejection_reason = some s }
set_attr o (assigned_to u) = record o { assigned_to = some u }

unfoldable pub set_attrs : WorkOrder → List Update → WorkOrder
unfolding set_attr
set_attrs o [] = o
set_attrs o (u ∷ us) = set_attrs (set_attr o u) us
