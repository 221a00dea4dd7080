-- ===== src/Platform/Idempotency/Endpoint.antt =====
-- An endpoint that is guarded by an idempotency key. The services repeat one shape: `begin`, answer
-- from the stored record or refuse while it is pending, do the work, `complete`.
pub mod Replay
pub mod Keeps
use campus_pilots.Base.{
  ℕ, String, Bool, true, false, Option, none, some, List, ◌∷◌, ◌≡◌, refl, arith, if◌then◌else◌,
}
use campus_pilots.Errors.{idempotency_conflict}
use campus_pilots.Exec.{Result, ok, raised, Exec, pure, raise, raise_if, ◌>>=◌, ◌>>◌}
use campus_pilots.Platform.Idempotency.{
  IdempotencyRecord, IdempotencyReplay, IdempotencyDecision, Scope, begin, complete,
}

-- How a service's tables hold the idempotency records.
pub record HasRecords (W B : Type 0) : Type 0 where
  pub records : W → List (IdempotencyRecord B)
  pub with_records : List (IdempotencyRecord B) → W → W
  pub records-with :
      (rows : List (IdempotencyRecord B)) (w : W) → records (with_records rows w) ≡ rows
  pub with-records : (w : W) → with_records (records w) w ≡ w

-- What an endpoint answers.
pub record Answer (B : Type 0) : Type 0 where
  pub status_code : ℕ
  pub body : Option B

-- What the work hands to `complete`.
pub record Completion (B : Type 0) : Type 0 where
  pub response_status : ℕ
  pub response_body : B
  pub resource_type : Option String
  pub resource_id : Option String

-- One request: its scope, the hash of its body, the id for a new record and the time.
pub record Request : Type 0 where
  pub scope : Scope
  pub request_hash : String
  pub record_id : ℕ
  pub now : ℕ

module _ {W B : Type 0} (t : HasRecords W B) where
  abbrev pub on_records : {A : Type 0} → Exec (List (IdempotencyRecord B)) A → Exec W A
  on_records m w = let (r, rows) = m (t.records w) in (r, t.with_records rows w)

  abbrev pub replayed : IdempotencyReplay B → Answer B
  replayed r = record { status_code = r.response_status; body = r.response_body }

  -- `if not completed: raise IdempotencyConflict()`, then the answer.
  abbrev pub finish : Completion B → Bool → Exec W (Answer B)
  finish c true w =
      (ok (record { status_code = c.response_status; body = some c.response_body }), w)
  finish c false w = (raised idempotency_conflict, w)

  abbrev pub work_and_complete : ℕ → Exec W (Completion B) → Exec W (Answer B)
  work_and_complete record_id work = do
    c ← work
    done ←
        on_records
          (complete record_id c.response_status c.response_body c.resource_type c.resource_id)
    finish c done

  -- `if decision.replay is not None: return …`, `if decision.pending: raise …`, the work.
  abbrev pub answer_by :
      Option (IdempotencyReplay B) → Bool → ℕ → Exec W (Completion B) → Exec W (Answer B)
  answer_by (some r) pending record_id work = pure (replayed r)
  answer_by none true record_id work = raise idempotency_conflict
  answer_by none false record_id work = work_and_complete record_id work

  abbrev pub answer : IdempotencyDecision B → Exec W (Completion B) → Exec W (Answer B)
  answer decision work = answer_by decision.replay decision.pending decision.record_id work

  unfoldable pub once : Request → Exec W (Completion B) → Exec W (Answer B)
  once rq work = do
    decision ← on_records (begin (λ rows. rows) rq.scope rq.request_hash rq.record_id rq.now)
    answer decision work
