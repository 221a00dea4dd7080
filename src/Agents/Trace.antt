-- ===== src/Agents/Trace.antt =====
-- backend/app/modules/agent_platform/traces.py: `TraceService` and `TraceRepository`, the record of
-- what a run of an agent did. The redacted JSON columns are left out.
pub mod Steps
pub mod Numbers
pub mod Terminal
mod Tests
use campus_pilots.Base.{
  ℕ, ◌+◌, min, String, Bool, true, false, not, ◌&&◌, ◌||◌, Option, none, some, List, [], ◌∷◌, leb,
  ◌==◌, any, find, update_where, count_where, str_eq, if◌then◌else◌,
}
use campus_pilots.Errors.{
  agent_run_not_found, agent_run_state_conflict, agent_max_steps_exceeded, agent_loop_detected,
  integrity_error,
}
use campus_pilots.Exec.{
  Result, Exec, ok, pure, gets, require, raise_if, modify, atomically, ◌>>=◌, ◌>>◌,
}
use campus_pilots.Platform.Moderation.Case.{take_text}
use campus_pilots.Agents.Contracts.{AgentCode, supervisor, governance_agent}

pub data RunStatus : Type 0 where
  created routing running awaiting_input awaiting_approval : RunStatus
  succeeded partial failed cancelled : RunStatus

-- The statuses of steps and tool calls.
pub data WorkStatus : Type 0 where
  created prepared awaiting_approval authorized running : WorkStatus
  succeeded partial failed rejected expired cancelled : WorkStatus

-- `ACTIVE`; the others are `TERMINAL`.
abbrev pub is_active : RunStatus → Bool
is_active RunStatus.created = true
is_active RunStatus.routing = true
is_active RunStatus.running = true
is_active RunStatus.awaiting_input = true
is_active RunStatus.awaiting_approval = true
is_active _ = false

pub record AgentRun : Type 0 where
  pub id : ℕ
  pub user_id : ℕ
  pub conversation_id : Option ℕ
  pub client_request_id : String
  pub input_summary : String
  pub status : RunStatus
  pub step_count : ℕ
  pub specialist_count : ℕ
  pub finish_reason : Option String
  pub error_code : Option String
  pub started_at : Option ℕ
  pub finished_at : Option ℕ
  pub created_at : ℕ
  pub updated_at : ℕ

pub record AgentStep : Type 0 where
  pub id : ℕ
  pub run_id : ℕ
  pub parent_step_id : Option ℕ
  pub sequence_no : ℕ
  pub agent_code : AgentCode
  pub task_type : String
  pub status : WorkStatus
  pub signature_hash : Option String
  pub error_code : Option String
  pub finished_at : Option ℕ
  pub created_at : ℕ

pub record ToolCall : Type 0 where
  pub id : ℕ
  pub run_id : ℕ
  pub step_id : ℕ
  pub tool_name : String
  pub tool_version : String
  pub arguments_hash : String
  pub status : WorkStatus
  pub idempotency_key : Option String
  pub error_code : Option String
  pub finished_at : Option ℕ
  pub created_at : ℕ

pub record Tables : Type 0 where
  pub runs : List AgentRun
  pub steps : List AgentStep
  pub calls : List ToolCall

abbrev pub has_id : ℕ → AgentRun → Bool
has_id run_id r = r.id == run_id

-- `UPDATE … WHERE id = … AND status IN …`, and whether one row was changed.
unfoldable pub update_run : ℕ → (RunStatus → Bool) → (AgentRun → AgentRun) → Exec Tables Bool
update_run run_id expected values w =
    let p = λ (r : AgentRun). has_id run_id r && expected r.status in
    (ok (count_where p w.runs == 1), record w { runs = update_where p values w.runs })

unfoldable pub update_step : ℕ → (WorkStatus → Bool) → (AgentStep → AgentStep) → Exec Tables Bool
update_step step_id expected values w =
    let p = λ (s : AgentStep). s.id == step_id && expected s.status in
    (ok (count_where p w.steps == 1), record w { steps = update_where p values w.steps })

unfoldable pub update_tool : ℕ → (WorkStatus → Bool) → (ToolCall → ToolCall) → Exec Tables Bool
update_tool call_id expected values w =
    let p = λ (c : ToolCall). c.id == call_id && expected c.status in
    (ok (count_where p w.calls == 1), record w { calls = update_where p values w.calls })

pub record NewRun : Type 0 where
  pub id : ℕ
  pub user_id : ℕ
  pub client_request_id : String
  pub input_summary : String
  pub conversation_id : Option ℕ

abbrev pub new_run : ℕ → NewRun → AgentRun
new_run now n = record {
  id = n.id;
  user_id = n.user_id;
  conversation_id = n.conversation_id;
  client_request_id = n.client_request_id;
  input_summary = take_text 1000 n.input_summary;
  status = RunStatus.created;
  step_count = 0;
  specialist_count = 0;
  finish_reason = none;
  error_code = none;
  started_at = none;
  finished_at = none;
  created_at = now;
  updated_at = now;
}

-- The primary key refuses an identifier that is there.
unfoldable pub create_run : ℕ → NewRun → Exec Tables AgentRun
create_run now n = do
  taken ← gets (λ w. any (has_id n.id) w.runs)
  raise_if taken integrity_error
  modify (λ w. record w { runs = new_run now n ∷ w.runs })
  pure (new_run now n)

pub record NewStep : Type 0 where
  pub id : ℕ
  pub run_id : ℕ
  pub agent_code : AgentCode
  pub task_type : String
  pub signature_hash : Option String
  pub parent_step_id : Option ℕ

abbrev pub new_step : ℕ → ℕ → NewStep → AgentStep
new_step now sequence n = record {
  id = n.id;
  run_id = n.run_id;
  parent_step_id = n.parent_step_id;
  sequence_no = sequence;
  agent_code = n.agent_code;
  task_type = n.task_type;
  status = WorkStatus.created;
  signature_hash = n.signature_hash;
  error_code = none;
  finished_at = none;
  created_at = now;
}

abbrev pub same_signature : Option String → String → Bool
same_signature none signature = false
same_signature (some s) signature = str_eq s signature

abbrev pub count_signature : ℕ → String → Tables → ℕ
count_signature run_id signature w =
    count_where (λ s. s.run_id == run_id && same_signature s.signature_hash signature) w.steps

-- `if signature_hash and await count_signature(…) >= 2`
abbrev pub repeats : ℕ → Option String → Tables → Bool
repeats run_id none w = false
repeats run_id (some signature) w =
    not (str_eq signature "") && leb 2 (count_signature run_id signature w)

-- The supervisor and the governance agent are no specialists.
abbrev pub specialist : AgentCode → ℕ
specialist supervisor = 0
specialist governance_agent = 0
specialist _ = 1

abbrev pub stepped : ℕ → ℕ → ℕ → AgentRun → AgentRun
stepped now sequence specialists r = record r {
  step_count = sequence;
  specialist_count = min specialists 3;
  updated_at = now;
}

unfoldable pub append_step : ℕ → NewStep → Exec Tables AgentStep
unfolding update_run
append_step now n = do
  row ← gets (λ w. find (has_id n.run_id) w.runs)
  run ← require row agent_run_not_found
  raise_if (not (is_active run.status)) agent_run_state_conflict
  raise_if (leb 6 run.step_count) agent_max_steps_exceeded
  looping ← gets (repeats n.run_id n.signature_hash)
  raise_if looping agent_loop_detected
  let sequence = run.step_count + 1
  modify (λ w. record w { steps = new_step now sequence n ∷ w.steps })
  changed ←
      update_run n.run_id is_active
        (stepped now sequence (run.specialist_count + specialist n.agent_code))
  raise_if (not changed) agent_run_state_conflict
  pure (new_step now sequence n)

pub record NewCall : Type 0 where
  pub id : ℕ
  pub run_id : ℕ
  pub step_id : ℕ
  pub tool_name : String
  pub tool_version : String
  pub arguments_hash : String
  pub idempotency_key : Option String

abbrev pub new_call : ℕ → NewCall → ToolCall
new_call now n = record {
  id = n.id;
  run_id = n.run_id;
  step_id = n.step_id;
  tool_name = n.tool_name;
  tool_version = n.tool_version;
  arguments_hash = n.arguments_hash;
  status = prepared;
  idempotency_key = n.idempotency_key;
  error_code = none;
  finished_at = none;
  created_at = now;
}

unfoldable pub append_tool : ℕ → NewCall → Exec Tables ToolCall
append_tool now n = do
  modify (λ w. record w { calls = new_call now n ∷ w.calls })
  pure (new_call now n)

-- The columns that a transition may set beside the status; `none` is an argument that is not given.
pub record SafeValues : Type 0 where
  pub error_code : Option (Option String)
  pub started_at : Option (Option ℕ)
  pub finished_at : Option (Option ℕ)

abbrev pub or_old {ℓ} : {A : Type ℓ} → Option A → A → A
or_old none old = old
or_old (some new) old = new

abbrev pub moved_run : ℕ → RunStatus → SafeValues → AgentRun → AgentRun
moved_run now status v r = record r {
  status = status;
  started_at = or_old v.started_at r.started_at;
  updated_at = now;
}

abbrev pub moved_step : WorkStatus → SafeValues → AgentStep → AgentStep
moved_step status v s = record s {
  status = status;
  error_code = or_old v.error_code s.error_code;
  finished_at = or_old v.finished_at s.finished_at;
}

abbrev pub moved_tool : WorkStatus → SafeValues → ToolCall → ToolCall
moved_tool status v c = record c {
  status = status;
  error_code = or_old v.error_code c.error_code;
  finished_at = or_old v.finished_at c.finished_at;
}

unfoldable pub transition_tool :
    ℕ → (WorkStatus → Bool) → WorkStatus → SafeValues → Exec Tables (Unit {0})
unfolding update_tool
transition_tool call_id expected status v = do
  changed ← update_tool call_id expected (moved_tool status v)
  raise_if (not changed) agent_run_state_conflict

unfoldable pub transition_run :
    ℕ → ℕ → (RunStatus → Bool) → RunStatus → SafeValues → Exec Tables (Unit {0})
unfolding update_run
transition_run now run_id expected status v = do
  changed ← update_run run_id expected (moved_run now status v)
  raise_if (not changed) agent_run_state_conflict

unfoldable pub transition_step :
    ℕ → (WorkStatus → Bool) → WorkStatus → SafeValues → Exec Tables (Unit {0})
unfolding update_step
transition_step step_id expected status v = do
  changed ← update_step step_id expected (moved_step status v)
  raise_if (not changed) agent_run_state_conflict

abbrev pub finalized : ℕ → RunStatus → Option String → Option String → AgentRun → AgentRun
finalized now status finish_reason error_code r = record r {
  status = status;
  finish_reason = finish_reason;
  error_code = error_code;
  finished_at = some now;
  updated_at = now;
}

unfoldable pub finalize : ℕ → ℕ → RunStatus → Option String → Option String → Exec Tables (Unit {0})
unfolding update_run
finalize now run_id status finish_reason error_code = do
  raise_if (is_active status) agent_run_state_conflict
  changed ← update_run run_id is_active (finalized now status finish_reason error_code)
  raise_if (not changed) agent_run_state_conflict

-- The calls of the service, each in a transaction of its own.
pub data Request : Type 0 where
  starting : NewRun → Request
  appending : NewStep → Request
  calling : NewCall → Request
  moving_tool : ℕ → (WorkStatus → Bool) → WorkStatus → SafeValues → Request
  moving_run : ℕ → (RunStatus → Bool) → RunStatus → SafeValues → Request
  moving_step : ℕ → (WorkStatus → Bool) → WorkStatus → SafeValues → Request
  finalizing : ℕ → RunStatus → Option String → Option String → Request

abbrev pub discard {ℓ} : {A : Type ℓ} → Exec Tables A → Exec Tables (Unit {0})
discard m = atomically (m >>= λ _. pure tt)

unfoldable pub serve : ℕ → Request → Exec Tables (Unit {0})
unfolding create_run append_step append_tool transition_tool transition_run transition_step finalize
serve now (starting n) = discard (create_run now n)
serve now (appending n) = discard (append_step now n)
serve now (calling n) = discard (append_tool now n)
serve now (moving_tool call_id expected status v) =
    discard (transition_tool call_id expected status v)
serve now (moving_run run_id expected status v) =
    discard (transition_run now run_id expected status v)
serve now (moving_step step_id expected status v) =
    discard (transition_step step_id expected status v)
serve now (finalizing run_id status finish_reason error_code) =
    discard (finalize now run_id status finish_reason error_code)

-- The tables after a history of calls with their times, the newest first.
abbrev pub history : List (ℕ × Request) → Tables → Tables
history [] w = w
history ((now, r) ∷ older) w = (serve now r (history older w)).1
