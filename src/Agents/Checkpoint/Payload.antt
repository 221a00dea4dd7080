-- ===== src/Agents/Checkpoint/Payload.antt =====
-- The dictionaries of `CheckpointCodec` (backend/app/modules/agent_platform/checkpointing.py): what
-- `encode` writes into the JSON and how `decode` reads it. `U`, `P` and `R` stand for the models
-- UserContext, SupervisorPlan and ToolCallRequest, `C` for the JSON values that they and the context are.
use campus_pilots.Base.{
  ℕ, String, Bool, true, false, Option, none, some, List, [], ◌∷◌, str_eq, if◌then◌else◌,
}
use Prim.Native.String.{compare}
use Prim.Native.Nat.{Ordering}
use campus_pilots.Base.Sort.{sort}

pub record RuntimeCheckpoint (U C P R : Type 0) : Type 0 where
  pub user : U
  pub objective : String
  pub context : C
  pub plan : P
  pub next_task : ℕ
  pub pending_step_id : Option ℕ
  pub pending_tool_call_id : Option ℕ
  pub pending_request : Option R
  pub pending_agent_code : Option String
  pub terminal : Bool
  pub had_failures : Bool
  pub checkpoint_version : ℕ

pub data Value (C : Type 0) : Type 0 where
  null : Value C
  text : String → Value C
  number : ℕ → Value C
  boolean : Bool → Value C
  nested : C → Value C

abbrev pub Dict : Type 0 → Type 0
Dict C = List (String × Value C)

-- What the codec calls: the JSON text with its parser, Fernet's encryption with its random bytes and
-- its decryption, SHA-256, `str(uuid)` and `UUID(text)`, and pydantic's `model_dump(mode="json")` and
-- `model_validate` of the three models. `none` is a failure. `truthy` is the truth of a JSON value.
pub record Codec (U C P R : Type 0) : Type 0 where
  pub dumps : Dict C → String
  pub loads : String → Option (Dict C)
  pub encrypt : ℕ → String → String
  pub decrypt : String → Option String
  pub sha256 : String → String
  pub uuid_text : ℕ → String
  pub parse_uuid : String → Option ℕ
  pub truthy : C → Bool
  pub dump_user : U → C
  pub validate_user : C → Option U
  pub dump_plan : P → C
  pub validate_plan : C → Option P
  pub dump_request : R → C
  pub validate_request : C → Option R

module _ {C : Type 0} where
  abbrev pub item : String → Dict C → Option (Value C)
  item key [] = none
  item key ((k, v) ∷ rest) = if str_eq k key then some v else item key rest

  abbrev pub after : String × Value C → String × Value C → Bool
  after (a, v) (b, w) = elim (compare a b) [ Ordering.gt ↦ true | _ ↦ false ]

  -- `sort_keys=True`
  abbrev pub sorted : Dict C → Dict C
  sorted = sort after

module _ {ℓ κ} {A : Type ℓ} {B : Type κ} where
  infixl 4 ◌&>◌
  abbrev pub ◌&>◌ : Option A → (A → Option B) → Option B
  ◌&>◌ none f = none
  ◌&>◌ (some a) f = f a

module _ {U C P R : Type 0} (x : Codec U C P R) where
  abbrev pub uuid_value : Option ℕ → Value C
  uuid_value none = null
  uuid_value (some n) = text (x.uuid_text n)

  abbrev pub request_value : Option R → Value C
  request_value none = null
  request_value (some r) = nested (x.dump_request r)

  abbrev pub code_value : Option String → Value C
  code_value none = null
  code_value (some code) = text code

  -- The dictionary of a state: all but its version.
  unfoldable pub payload_of : RuntimeCheckpoint U C P R → Dict C
  payload_of s =
      ("user", nested (x.dump_user s.user))
      ∷ ("objective", text s.objective)
      ∷ ("context", nested s.context)
      ∷ ("plan", nested (x.dump_plan s.plan))
      ∷ ("next_task", number s.next_task)
      ∷ ("pending_step_id", uuid_value s.pending_step_id)
      ∷ ("pending_tool_call_id", uuid_value s.pending_tool_call_id)
      ∷ ("pending_request", request_value s.pending_request)
      ∷ ("pending_agent_code", code_value s.pending_agent_code)
      ∷ ("terminal", boolean s.terminal)
      ∷ ("had_failures", boolean s.had_failures)
      ∷ []

  -- `UUID(value) if value else None`
  unfoldable pub as_uuid : Value C → Option (Option ℕ)
  as_uuid null = some none
  as_uuid (text t) =
      if str_eq t ""
      then some none
      else elim (x.parse_uuid t) [ none ↦ none | some n ↦ some (some n) ]
  as_uuid _ = none

  -- `ToolCallRequest.model_validate(value) if value else None`
  unfoldable pub as_request : Value C → Option (Option R)
  as_request null = some none
  as_request (nested c) =
      if x.truthy c
      then elim (x.validate_request c) [ none ↦ none | some r ↦ some (some r) ]
      else some none
  as_request _ = none

  -- A value that the code takes as it is; one of another type, which no `encode` writes, is refused.
  unfoldable pub as_code : Value C → Option (Option String)
  as_code null = some none
  as_code (text code) = some (some code)
  as_code _ = none

  abbrev pub as_nested : Value C → Option C
  as_nested (nested c) = some c
  as_nested _ = none

  abbrev pub as_text : Value C → Option String
  as_text (text t) = some t
  as_text _ = none

  abbrev pub as_number : Value C → Option ℕ
  as_number (number n) = some n
  as_number _ = none

  abbrev pub as_boolean : Value C → Option Bool
  as_boolean (boolean b) = some b
  as_boolean _ = none

  -- The state that `decode` makes of a dictionary, with the version 0 of a new state. A missing key
  -- is a `KeyError`, which is a failure.
  unfoldable pub state_of : Dict C → Option (RuntimeCheckpoint U C P R)
  unfolding as_uuid as_request as_code
  state_of payload = (item "user" payload &> as_nested &> x.validate_user) &> λ user.
      (item "objective" payload &> as_text) &> λ objective.
      (item "context" payload &> as_nested) &> λ context.
      (item "plan" payload &> as_nested &> x.validate_plan) &> λ plan.
      (item "next_task" payload &> as_number) &> λ next_task.
      (item "pending_step_id" payload &> as_uuid) &> λ step.
      (item "pending_tool_call_id" payload &> as_uuid) &> λ call.
      (item "pending_request" payload &> as_request) &> λ request.
      (item "pending_agent_code" payload &> as_code) &> λ code.
      (item "terminal" payload &> as_boolean) &> λ terminal.
      (item "had_failures" payload &> as_boolean) &> λ had_failures. some (record {
        user = user;
        objective = objective;
        context = context;
        plan = plan;
        next_task = next_task;
        pending_step_id = step;
        pending_tool_call_id = call;
        pending_request = request;
        pending_agent_code = code;
        terminal = terminal;
        had_failures = had_failures;
        checkpoint_version = 0;
      })
