-- ===== src/Campus/WorkOrder/StateMachine/Matrix.antt =====
-- The transition matrix as a relation, and what the effects of a transition do to an order.
use campus_pilots.Base.{ℕ, ◌+◌, String, true, false, ◌&&◌, Option, ◌≡◌, ◌↔◌, refl, arith}
use campus_pilots.Exec.{ok}
use campus_pilots.Campus.WorkOrder.{
  WorkOrderStatus, submitted, accepted, processing, completed, cancelled, rejected,
}
use campus_pilots.Campus.WorkOrder.StateMachine.{
  TransitionEffects, apply, is_blank, allowed, needs_note, effects_of,
}

pub data Edge : WorkOrderStatus → WorkOrderStatus → Type 0 where
  accept : Edge submitted accepted
  refuse : Edge submitted rejected
  withdraw : Edge submitted cancelled
  begin_work : Edge accepted processing
  finish_work : Edge processing completed

-- How many transitions lead to a status.
abbrev pub rank : WorkOrderStatus → ℕ
rank submitted = 0
rank accepted = 1
rank processing = 2
rank completed = 3
rank cancelled = 1
rank rejected = 1

pub rank-Edge : {s t : WorkOrderStatus} → Edge s t → rank t ≡ rank s + 1
rank-Edge accept = refl
rank-Edge refuse = refl
rank-Edge withdraw = refl
rank-Edge begin_work = refl
rank-Edge finish_work = refl

pub allowed_of_Edge : {s t : WorkOrderStatus} → Edge s t → allowed s t ≡ true
allowed_of_Edge accept = refl
allowed_of_Edge refuse = refl
allowed_of_Edge withdraw = refl
allowed_of_Edge begin_work = refl
allowed_of_Edge finish_work = refl

Edge_of_allowed : (s t : WorkOrderStatus) → allowed s t ≡ true → Edge s t
Edge_of_allowed submitted accepted h = accept
Edge_of_allowed submitted rejected h = refuse
Edge_of_allowed submitted cancelled h = withdraw
Edge_of_allowed accepted processing h = begin_work
Edge_of_allowed processing completed h = finish_work
Edge_of_allowed submitted submitted h = absurd (cc)
Edge_of_allowed _ _ h = absurd (cc)

apply-allowed :
    (s t : WorkOrderStatus) (reason : String) (text : Option String) (now : ℕ)
    {fx : TransitionEffects}
    → apply s t reason text now ≡ ok fx
    → allowed s t ≡ true
unfolding apply
apply-allowed s t reason text now h = ground arith

pub apply-Edge :
    (s t : WorkOrderStatus) (reason : String) (text : Option String) (now : ℕ)
    {fx : TransitionEffects}
    → apply s t reason text now ≡ ok fx
    → Edge s t
apply-Edge s t reason text now h = Edge_of_allowed s t (apply-allowed s t reason text now h)

note_of_completed :
    (s t : WorkOrderStatus) (reason : String) (text : Option String) (now : ℕ)
    {fx : TransitionEffects}
    → apply s t reason text now ≡ ok fx
    → t ≡ completed
    → is_blank text ≡ false
unfolding apply
note_of_completed s t reason text now h e = ground arith

accepts :
    (s t : WorkOrderStatus) (reason : String) (text : Option String) (now : ℕ)
    → allowed s t ≡ true
    → (needs_note t && is_blank text) ≡ false
    → apply s t reason text now ≡ ok (effects_of t reason text now)
unfolding apply
accepts s t reason text now h n = rw (h, n)

note_given :
    (t : WorkOrderStatus) (text : Option String)
    → (t ≡ completed → is_blank text ≡ false)
    → (needs_note t && is_blank text) ≡ false
note_given completed text h = h refl
note_given _ text h = refl

-- The state machine accepts exactly the edges of the matrix, and completion only with a note that
-- is not blank.
pub apply_exact :
    (s t : WorkOrderStatus) (reason : String) (text : Option String) (now : ℕ)
    → ((fx : TransitionEffects) × (apply s t reason text now ≡ ok fx))
      ↔ (Edge s t × (t ≡ completed → is_blank text ≡ false))
apply_exact s t reason text now = (
  λ p. (apply-Edge s t reason text now p.1, note_of_completed s t reason text now p.1),
  λ p. (
    effects_of t reason text now,
    accepts s t reason text now (allowed_of_Edge p.0) (note_given t text p.1),
  ),
)

pub apply-effects_of :
    (s t : WorkOrderStatus) (reason : String) (text : Option String) (now : ℕ)
    {fx : TransitionEffects}
    → apply s t reason text now ≡ ok fx
    → fx ≡ effects_of t reason text now
unfolding apply
apply-effects_of s t reason text now h = ground arith
