-- ===== src/Agents/Trace/Tests.antt =====
-- One run with two steps, which is finalized.
use campus_pilots.Base.{
  ℕ, ◌≤◌, none, some, List, [], ◌∷◌, ◌≡◌, refl, ◌&&◌, leb, ◌==◌, if◌then◌else◌, count_where, find,
}
use campus_pilots.Platform.Moderation.Case.{take_text}
use campus_pilots.Agents.Contracts.{service_agent}
use campus_pilots.Agents.Trace.{
  Tables, RunStatus, AgentRun, AgentStep, NewStep, Request, starting, appending, moving_run,
  finalizing, has_id, is_active, serve, history, create_run, append_step, update_run, finalize,
}
use campus_pilots.Agents.Trace.Numbers.{history-numbered}
use campus_pilots.Agents.Trace.Terminal.{history-terminal}

abbrev empty : Tables
empty = record { runs = []; steps = []; calls = [] }

abbrev step : ℕ → NewStep
step n = record {
  id = n;
  run_id = 1;
  agent_code = service_agent;
  task_type = "generate";
  signature_hash = none;
  parent_step_id = none;
}

-- The newest call first.
abbrev calls : List (ℕ × Request)
calls =
    (103, finalizing 1 RunStatus.partial none none)
    ∷ (102, appending (step 12))
    ∷ (101, appending (step 11))
    ∷ (
      100,
      starting (record {
        id = 1;
        user_id = 7;
        client_request_id = "req";
        input_summary = "lamp";
        conversation_id = none;
      }),
    )
    ∷ []

abbrev over : AgentRun
over = record {
  id = 1;
  user_id = 7;
  conversation_id = none;
  client_request_id = "req";
  input_summary = take_text 1000 "lamp";
  status = RunStatus.partial;
  step_count = 2;
  specialist_count = 2;
  finish_reason = none;
  error_code = none;
  started_at = none;
  finished_at = some 103;
  created_at = 100;
  updated_at = 103;
}

is_over : find (has_id 1) (history calls empty).runs ≡ some over
unfolding serve create_run append_step update_run finalize
is_over = refl

history-numbered_example :
    (2 ≤ 6)
    × ((k : ℕ)
        → count_where
            (λ (s : AgentStep). s.run_id == 1 && s.sequence_no == k)
            (history calls empty).steps
          ≡ (if leb 1 k && leb k 2 then 1 else 0))
history-numbered_example = history-numbered calls empty 1 over refl refl is_over

abbrev more : List (ℕ × Request)
more =
    (
      105,
      moving_run 1 is_active RunStatus.running
          (record { error_code = none; started_at = none; finished_at = none }),
    )
    ∷ (104, appending (step 13))
    ∷ []

history-terminal_example :
    (find (has_id 1) (history more (history calls empty)).runs ≡ some over)
    × (count_where (λ (s : AgentStep). s.run_id == 1) (history more (history calls empty)).steps
        ≡ count_where (λ (s : AgentStep). s.run_id == 1) (history calls empty).steps)
history-terminal_example =
    history-terminal more (history calls empty) 1 over refl ((λ s h. h), (tt, tt)) is_over
