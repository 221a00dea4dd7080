-- ===== src/Platform/Idempotency.antt =====
-- backend/app/modules/platform/idempotency.py, with the queries of `IdempotencyRecordRepository`
-- in repositories.py. The table is the list of its rows.
pub mod Laws
mod Tests
pub mod Endpoint
use campus_pilots.Base.{
  ℕ, ◌+◌, ◌*◌, String, Bool, true, false, ◌&&◌, Option, none, some, List, ◌∷◌, ◌==◌, str_eq,
  is_none, if◌then◌else◌, any, find, update_where, count_where,
}
use campus_pilots.Errors.{idempotency_conflict, integrity_error}
use campus_pilots.Exec.{Result, ok, raised, Exec}

-- Times are microseconds; the code's `timedelta(hours=24)`.
abbrev pub idempotency_ttl : ℕ
idempotency_ttl = 24 * 3600 * 1000000

-- `B` is the type of the response bodies.
pub record IdempotencyRecord {ℓ} (B : Type ℓ) : Type ℓ where
  pub id : ℕ
  pub user_id : ℕ
  pub endpoint : String
  pub idempotency_key : String
  pub request_hash : String
  pub response_status : Option ℕ
  pub response_body : Option B
  pub resource_type : Option String
  pub resource_id : Option String
  pub created_at : ℕ
  pub expires_at : ℕ

pub record IdempotencyReplay {ℓ} (B : Type ℓ) : Type ℓ where
  pub response_status : ℕ
  pub response_body : Option B
  pub resource_type : Option String
  pub resource_id : Option String

pub record IdempotencyDecision {ℓ} (B : Type ℓ) : Type ℓ where
  pub record_id : ℕ
  pub replay : Option (IdempotencyReplay B)
  pub pending : Bool

-- The unique key of a record.
pub record Scope : Type 0 where
  pub user_id : ℕ
  pub endpoint : String
  pub idempotency_key : String

module _ {ℓ} {B : Type ℓ} where
  abbrev pub in_scope : Scope → IdempotencyRecord B → Bool
  in_scope sc r =
      r.user_id == sc.user_id
      && (str_eq r.endpoint sc.endpoint && str_eq r.idempotency_key sc.idempotency_key)

  unfoldable pub get_by_scope : Scope → List (IdempotencyRecord B) → Option (IdempotencyRecord B)
  get_by_scope sc rows = find (in_scope sc) rows

  abbrev answered : IdempotencyRecord B → Option ℕ → Result (IdempotencyDecision B)
  answered r none = ok (record { record_id = r.id; replay = none; pending = true })
  answered r (some status) = ok (record {
    record_id = r.id;
    replay = some (record {
      response_status = status;
      response_body = r.response_body;
      resource_type = r.resource_type;
      resource_id = r.resource_id;
    });
    pending = false;
  })

  unfoldable pub existing_decision : IdempotencyRecord B → String → Result (IdempotencyDecision B)
  existing_decision r request_hash =
      if str_eq r.request_hash request_hash
      then answered r r.response_status
      else raised idempotency_conflict

  abbrev pub new_record : Scope → String → ℕ → ℕ → IdempotencyRecord B
  new_record sc request_hash record_id now = record {
    id = record_id;
    user_id = sc.user_id;
    endpoint = sc.endpoint;
    idempotency_key = sc.idempotency_key;
    request_hash = request_hash;
    response_status = none;
    response_body = none;
    resource_type = none;
    resource_id = none;
    created_at = now;
    expires_at = now + idempotency_ttl;
  }

  -- What the loser of a race gets: the winner's answer, or the error if there is no winner to read.
  abbrev reread :
      String
      → Option (IdempotencyRecord B)
      → Exec (List (IdempotencyRecord B)) (IdempotencyDecision B)
  reread request_hash none rows = (raised integrity_error, rows)
  reread request_hash (some winner) rows = (existing_decision winner request_hash, rows)

  -- The insert in its savepoint: the unique key refuses it if a row of that scope is there, and
  -- then the winner is read again.
  unfoldable pub insert_or_reread :
      Scope → String → ℕ → ℕ → Exec (List (IdempotencyRecord B)) (IdempotencyDecision B)
  unfolding get_by_scope existing_decision
  insert_or_reread sc request_hash record_id now rows =
      if any (in_scope sc) rows then reread request_hash (get_by_scope sc rows) rows else (
        ok (record { record_id = record_id; replay = none; pending = false }),
        new_record sc request_hash record_id now ∷ rows,
      )

  -- `others` is what other sessions commit between the read and the insert.
  unfoldable pub begin :
      (List (IdempotencyRecord B) → List (IdempotencyRecord B))
      → Scope
      → String
      → ℕ
      → ℕ
      → Exec (List (IdempotencyRecord B)) (IdempotencyDecision B)
  unfolding insert_or_reread
  begin others sc request_hash record_id now rows = elim (get_by_scope sc rows) [
    | some existing ↦ (existing_decision existing request_hash, rows)
    | none ↦ insert_or_reread sc request_hash record_id now (others rows)
  ]

  abbrev pub is_open : ℕ → IdempotencyRecord B → Bool
  is_open record_id r = r.id == record_id && is_none r.response_status

  abbrev pub close :
      ℕ → B → Option String → Option String → IdempotencyRecord B → IdempotencyRecord B
  close status body resource_type resource_id r = record r {
    response_status = some status;
    response_body = some body;
    resource_type = resource_type;
    resource_id = resource_id;
  }

  -- Whether exactly one open record was closed.
  unfoldable pub complete :
      ℕ → ℕ → B → Option String → Option String → Exec (List (IdempotencyRecord B)) Bool
  complete record_id status body resource_type resource_id rows = (
    ok (count_where (is_open record_id) rows == 1),
    update_where (is_open record_id) (close status body resource_type resource_id) rows,
  )
