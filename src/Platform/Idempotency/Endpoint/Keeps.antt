-- ===== src/Platform/Idempotency/Endpoint/Keeps.antt =====
-- What the work of an endpoint keeps, the endpoint and its transaction keep.
use campus_pilots.Base.{ℕ, Bool, true, false, Option, none, some, List}
use campus_pilots.Exec.{Exec, atomically}
use campus_pilots.Exec.Keeps.{Leads, Keeps, bind-Leads, atomically-Leads}
use campus_pilots.Platform.Idempotency.{
  IdempotencyRecord, IdempotencyDecision, IdempotencyReplay, begin, complete,
}
use campus_pilots.Platform.Idempotency.Endpoint.{
  HasRecords, Completion, Request, once, answer, answer_by, finish, work_and_complete, on_records,
}

-- The property does not read the idempotency records.
abbrev pub Ignores {κ} : {W B : Type 0} → HasRecords W B → (W → Type κ) → Type κ
Ignores {W} {B} t P = (rows : List (IdempotencyRecord B)) (w : W) → P w → P (t.with_records rows w)

module _ {κ} {W B : Type 0} (t : HasRecords W B) (P Q : W → Type κ)
    (weaker : (w : W) → P w → Q w) where
  finish-Keeps : (c : Completion B) (done : Bool) → Keeps Q (finish t c done)
  finish-Keeps c true w h = h
  finish-Keeps c false w h = h

  complete-Leads :
      Ignores t Q
      → (i : ℕ) (work : Exec W (Completion B)) → Leads P Q work
      → Leads P Q (work_and_complete t i work)
  complete-Leads ignores i work k =
      bind-Leads P Q Q work _ (λ w h. h) k
        λ c.
          bind-Leads Q Q Q
            (on_records t
              (complete i c.response_status c.response_body c.resource_type c.resource_id))
            (finish t c) (λ w h. h) (λ w h. ignores _ w h) (finish-Keeps c)

  answer-Leads :
      Ignores t Q
      → (o : Option (IdempotencyReplay B)) (pending : Bool) (i : ℕ) (work : Exec W (Completion B))
      → Leads P Q work
      → Leads P Q (answer_by t o pending i work)
  answer-Leads ignores (some r) pending i work k w h = weaker w h
  answer-Leads ignores none true i work k w h = weaker w h
  answer-Leads ignores none false i work k w h = complete-Leads ignores i work k w h

  pub once-Leads :
      Ignores t P
      → Ignores t Q
      → (rq : Request) (work : Exec W (Completion B)) → Leads P Q work
      → Leads P Q (once t rq work)
  unfolding once
  once-Leads pre post rq work k =
      bind-Leads P P Q
        (on_records t (begin (λ rows. rows) rq.scope rq.request_hash rq.record_id rq.now))
        (λ d. answer t d work) weaker (λ w h. pre _ w h)
        λ (d : IdempotencyDecision B). answer-Leads post d.replay d.pending d.record_id work k

  pub endpoint-Leads :
      Ignores t P
      → Ignores t Q
      → (rq : Request) (work : Exec W (Completion B)) → Leads P Q work
      → Leads P Q (atomically (once t rq work))
  endpoint-Leads pre post rq work k =
      atomically-Leads P Q (once t rq work) weaker (once-Leads pre post rq work k)
