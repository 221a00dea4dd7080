-- ===== src/Agents/Outbox.antt =====
-- The commands of the runtime: `OutboxRuntimeDispatcher._add` and `RuntimeWorker._process_one`
-- (backend/app/modules/agent_platform/runtime_worker.py) over `RuntimeCommandRepository`
-- (runtime_persistence.py). Times are microseconds.
pub mod Steps
pub mod Settled
pub mod Attempts
mod Tests
use campus_pilots.Base.{
  ℕ, zero, suc, ◌+◌, ◌*◌, ◌^◌, max, min, String, Bool, true, false, not, ◌&&◌, ◌||◌, Option, none,
  some, List, [], ◌∷◌, map, leb, ltb, ◌==◌, any, find, filter, update_where, count_where, str_eq,
  if◌then◌else◌,
}
use campus_pilots.Base.Sort.{sort}
use campus_pilots.Errors.{agent_run_state_conflict, integrity_error}
use campus_pilots.Exec.{Exec, ok, pure, gets, raise_if, modify, atomically, ◌>>=◌, ◌>>◌}

pub data CommandAction : Type 0 where
  start resume input cancel : CommandAction

pub data CommandStatus : Type 0 where
  pending processing succeeded failed : CommandStatus

abbrev pub is_pending : CommandStatus → Bool
is_pending pending = true
is_pending _ = false

abbrev pub is_processing : CommandStatus → Bool
is_processing processing = true
is_processing _ = false

-- A row of the table `agent_runtime_commands`, without its payload.
pub record Command : Type 0 where
  pub id : ℕ
  pub run_id : ℕ
  pub action : CommandAction
  pub approval_id : Option ℕ
  pub status : CommandStatus
  pub attempt_count : ℕ
  pub max_attempts : ℕ
  pub available_at : ℕ
  pub claimed_by : Option String
  pub claimed_at : Option ℕ
  pub completed_at : Option ℕ
  pub error_code : Option String
  pub created_at : ℕ
  pub updated_at : ℕ

abbrev pub has_id : ℕ → Command → Bool
has_id command_id c = c.id == command_id

abbrev pub new_command : ℕ → ℕ → ℕ → ℕ → CommandAction → Option ℕ → Command
new_command max_attempts now id run_id action approval_id = record {
  id = id;
  run_id = run_id;
  action = action;
  approval_id = approval_id;
  status = pending;
  attempt_count = 0;
  max_attempts = max_attempts;
  available_at = now;
  claimed_by = none;
  claimed_at = none;
  completed_at = none;
  error_code = none;
  created_at = now;
  updated_at = now;
}

-- `_add`, with the fresh identifier; the primary key refuses one that is there.
unfoldable pub add : ℕ → ℕ → ℕ → ℕ → CommandAction → Option ℕ → Exec (List Command) (Unit {0})
add max_attempts now id run_id action approval_id = do
  taken ← gets (λ rows. any (has_id id) rows)
  raise_if taken integrity_error
  modify (λ rows. new_command max_attempts now id run_id action approval_id ∷ rows)

-- `claimed_at < now - stale_after`, which a missing time does not satisfy.
abbrev pub is_stale : ℕ → ℕ → Option ℕ → Bool
is_stale now stale_after none = false
is_stale now stale_after (some claimed_at) = ltb (claimed_at + stale_after) now

abbrev pub is_claimable : ℕ → ℕ → Command → Bool
is_claimable now stale_after c =
    (is_pending c.status && (leb c.available_at now && ltb c.attempt_count c.max_attempts))
    || (is_processing c.status && is_stale now stale_after c.claimed_at)

-- `ORDER BY available_at, created_at, id`
abbrev pub comes_after : Command → Command → Bool
comes_after a b =
    ltb b.available_at a.available_at
    || (a.available_at == b.available_at
        && (ltb b.created_at a.created_at || (a.created_at == b.created_at && ltb b.id a.id)))

-- `LIMIT`
abbrev pub take {ℓ} : {A : Type ℓ} → ℕ → List A → List A
take zero xs = []
take (suc n) [] = []
take (suc n) (x ∷ xs) = x ∷ take n xs

-- A stale command at its limit is claimed again, and is not counted again.
abbrev pub claimed : String → ℕ → Command → Command
claimed worker_id now c = record c {
  status = processing;
  claimed_by = some worker_id;
  claimed_at = some now;
  attempt_count =
      if ltb c.attempt_count c.max_attempts then c.attempt_count + 1 else c.attempt_count;
  updated_at = now;
}

-- The identifiers of the chosen rows, which are then written.
unfoldable pub claim_batch : String → ℕ → ℕ → ℕ → Exec (List Command) (List ℕ)
claim_batch worker_id now stale_after limit rows =
    let chosen =
      map (λ (c : Command). c.id)
        (take limit (sort comes_after (filter (is_claimable now stale_after) rows))) in
    (
      ok chosen,
      update_where (λ c. is_claimable now stale_after c && any (λ id. has_id id c) chosen)
          (claimed worker_id now) rows,
    )

abbrev pub owned_by : String → Option String → Bool
owned_by worker_id none = false
owned_by worker_id (some w) = str_eq w worker_id

-- The row is in the hands of this worker.
abbrev pub is_held : ℕ → String → Command → Bool
is_held command_id worker_id c =
    has_id command_id c && (is_processing c.status && owned_by worker_id c.claimed_by)

abbrev pub completed : ℕ → Command → Command
completed now c = record c {
  status = succeeded;
  completed_at = some now;
  updated_at = now;
  error_code = none;
}

unfoldable pub complete : ℕ → String → ℕ → Exec (List Command) Bool
complete command_id worker_id now rows = (
  ok (count_where (is_held command_id worker_id) rows == 1),
  update_where (is_held command_id worker_id) (completed now) rows,
)

abbrev pub first_code : Option String → String → String
first_code none code = code
first_code (some first) code = if str_eq first "" then code else first

-- The command after a failure: over after the last attempt, else free for another one.
abbrev pub retried : ℕ → ℕ → String → Command → Command
retried now retry_at code c =
    let terminal = leb c.max_attempts c.attempt_count in
    record c {
      status = if terminal then failed else pending;
      completed_at = if terminal then some now else none;
      available_at = retry_at;
      claimed_by = none;
      claimed_at = none;
      error_code = some (first_code c.error_code code);
      updated_at = now;
    }

unfoldable pub fail_or_retry :
    ℕ → String → ℕ → ℕ → String → Exec (List Command) (Option CommandStatus)
fail_or_retry command_id worker_id now retry_at code rows =
    let new = update_where (is_held command_id worker_id) (retried now retry_at code) rows in
    (
      ok (elim (find (is_held command_id worker_id) rows) [
        | none ↦ none
        | some c ↦ some (retried now retry_at code c).status
      ]),
      new,
    )

-- `timedelta(seconds=min(60, 2 ** max(command.attempt_count, 1)))`
abbrev pub retry_delay : ℕ → ℕ
retry_delay attempt_count = 1000000 * min 60 (2 ^ max attempt_count 1)

-- What the processor does with a command: it returns, or it raises with an error code. In that case
-- `mark_failed`, which ends the run with the last attempt, returns or raises.
pub data Outcome : Type 0 where
  returned : Outcome
  raised_code : String → Bool → Outcome

abbrev pub is_failed : Option CommandStatus → Bool
is_failed (some failed) = true
is_failed _ = false

abbrev pub settle : String → ℕ → Outcome → Option Command → Exec (List Command) (Unit {0})
unfolding complete fail_or_retry
settle worker_id now outcome none = pure tt
settle worker_id now returned (some c) = do
  done ← complete c.id worker_id now
  raise_if (not done) agent_run_state_conflict
settle worker_id now (raised_code code marked) (some c) = do
  status ← fail_or_retry c.id worker_id now (now + retry_delay c.attempt_count) code
  raise_if (not marked && is_failed status) agent_run_state_conflict

-- `_process_one`, for the table of commands, with one time for its readings of the clock. An
-- exception that leaves the transaction rolls it back, and is then only printed.
unfoldable pub process_one : String → ℕ → ℕ → Outcome → Exec (List Command) (Unit {0})
unfolding settle
process_one worker_id now command_id outcome =
    atomically
      (gets (λ rows. find (is_held command_id worker_id) rows) >>= settle worker_id now outcome)
