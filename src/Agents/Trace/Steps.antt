-- ===== src/Agents/Trace/Steps.antt =====
-- What a call does to the tables: nothing, or one change of one table; a new step changes two.
use campus_pilots.Base.{
  ℕ, ◌+◌, ◌<◌, String, Bool, true, false, ◌&&◌, Option, some, ◌∷◌, ◌≡◌, refl, ◌⊎◌, inl, inr, arith,
  Bool-cases, Option-cases, leb, ◌==◌, find, any, update_where, count_where,
}
use campus_pilots.Agents.Trace.{
  AgentRun, AgentStep, ToolCall, RunStatus, WorkStatus, Tables, NewRun, NewStep, NewCall,
  SafeValues, starting, appending, calling, moving_tool, moving_run, moving_step, finalizing,
  is_active, has_id, update_run, update_step, update_tool, new_run, new_step, stepped, specialist,
  repeats, moved_run, moved_step, finalized, create_run, append_step, append_tool, transition_tool,
  transition_run, transition_step, finalize, serve,
}

pub starting-cases :
    (now : ℕ) (n : NewRun) (w : Tables)
    → ((serve now (starting n) w).1 ≡ w)
      ⊎ ((any (has_id n.id) w.runs ≡ false)
          × ((serve now (starting n) w).1 ≡ record w { runs = new_run now n ∷ w.runs }))
unfolding serve create_run
starting-cases now n w = elim (Bool-cases (any (has_id n.id) w.runs)) [
  | inl taken ↦ inl (rw taken refl)
  | inr fresh ↦ inr (fresh, rw fresh refl)
]

abbrev pub expects : ℕ → (RunStatus → Bool) → AgentRun → Bool
expects run_id expected r = has_id run_id r && expected r.status

-- The tables with a new step of a run.
abbrev pub with_step : ℕ → NewStep → AgentRun → Tables → Tables
with_step now n run w = record w {
  runs =
      update_where (expects n.run_id is_active)
        (stepped now (run.step_count + 1) (run.specialist_count + specialist n.agent_code)) w.runs;
  steps = new_step now (run.step_count + 1) n ∷ w.steps;
}

pub appending-cases :
    (now : ℕ) (n : NewStep) (w : Tables)
    → ((serve now (appending n) w).1 ≡ w)
      ⊎ ((run : AgentRun) × (find (has_id n.run_id) w.runs ≡ some run)
          × (is_active run.status ≡ true)
          × (run.step_count < 6)
          × (repeats n.run_id n.signature_hash w ≡ false)
          × ((serve now (appending n) w).1 ≡ with_step now n run w))
unfolding serve append_step update_run
appending-cases now n w = elim (Option-cases (find (has_id n.run_id) w.runs)) [
  | inl missing ↦ inl (rw missing refl)
  | inr (run, found) ↦ elim (Bool-cases (is_active run.status)) [
    | inr over ↦ inl (rw (found, over) refl)
    | inl going ↦ elim (Bool-cases (leb 6 run.step_count)) [
      | inl full ↦ inl (rw (found, going, full) refl)
      | inr room ↦ elim (Bool-cases (repeats n.run_id n.signature_hash w)) [
        | inl loop ↦ inl (rw (found, going, room, loop) refl)
        | inr fresh ↦ elim (Bool-cases (count_where (expects n.run_id is_active) w.runs == 1)) [
          | inl one ↦ inr (
            run,
            found,
            going,
            ground (arith, room),
            fresh,
            rw (found, going, room, fresh, one) refl,
          )
          | inr other ↦ inl (rw (found, going, room, fresh, other) refl)
        ]
      ]
    ]
  ]
]

pub moving_run-cases :
    (now run_id : ℕ) (expected : RunStatus → Bool) (status : RunStatus) (v : SafeValues)
    (w : Tables)
    → ((serve now (moving_run run_id expected status v) w).1 ≡ w)
      ⊎ ((serve now (moving_run run_id expected status v) w).1 ≡ record w {
        runs = update_where (expects run_id expected) (moved_run now status v) w.runs;
      })
unfolding serve transition_run update_run
moving_run-cases now run_id expected status v w =
    elim (Bool-cases (count_where (expects run_id expected) w.runs == 1)) [
      | inl one ↦ inr (rw one refl)
      | inr other ↦ inl (rw other refl)
    ]

pub finalizing-cases :
    (now run_id : ℕ) (status : RunStatus) (reason code : Option String) (w : Tables)
    → ((serve now (finalizing run_id status reason code) w).1 ≡ w)
      ⊎ ((serve now (finalizing run_id status reason code) w).1 ≡ record w {
        runs = update_where (expects run_id is_active) (finalized now status reason code) w.runs;
      })
unfolding serve finalize update_run
finalizing-cases now run_id status reason code w = elim (Bool-cases (is_active status)) [
  | inl bad ↦ inl (rw bad refl)
  | inr good ↦ elim (Bool-cases (count_where (expects run_id is_active) w.runs == 1)) [
    | inl one ↦ inr (rw (good, one) refl)
    | inr other ↦ inl (rw (good, other) refl)
  ]
]

-- A transition of a step or a tool call leaves the runs alone, and the steps but for their status.
pub moving_step-cases :
    (now step_id : ℕ) (expected : WorkStatus → Bool) (status : WorkStatus) (v : SafeValues)
    (w : Tables)
    → ((serve now (moving_step step_id expected status v) w).1 ≡ w)
      ⊎ ((serve now (moving_step step_id expected status v) w).1 ≡ record w {
        steps =
            update_where
              (λ (s : AgentStep). s.id == step_id && expected s.status)
              (moved_step status v)
              w.steps;
      })
unfolding serve transition_step update_step
moving_step-cases now step_id expected status v w =
    elim (Bool-cases
      (count_where (λ (s : AgentStep). s.id == step_id && expected s.status) w.steps == 1)) [
        | inl one ↦ inr (rw one refl)
        | inr other ↦ inl (rw other refl)
      ]

pub moving_tool-same :
    (now call_id : ℕ) (expected : WorkStatus → Bool) (status : WorkStatus) (v : SafeValues)
    (w : Tables)
    → ((serve now (moving_tool call_id expected status v) w).1.runs ≡ w.runs)
      × ((serve now (moving_tool call_id expected status v) w).1.steps ≡ w.steps)
unfolding serve transition_tool update_tool
moving_tool-same now call_id expected status v w =
    elim (Bool-cases
      (count_where (λ (c : ToolCall). c.id == call_id && expected c.status) w.calls == 1)) [
        | inl one ↦ rw one (refl, refl)
        | inr other ↦ rw other (refl, refl)
      ]

pub calling-same :
    (now : ℕ) (n : NewCall) (w : Tables)
    → ((serve now (calling n) w).1.runs ≡ w.runs) × ((serve now (calling n) w).1.steps ≡ w.steps)
unfolding serve append_tool
calling-same now n w = (refl, refl)
