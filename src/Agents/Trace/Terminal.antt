-- ===== src/Agents/Trace/Terminal.antt =====
-- A run that is over stays as it is.
use mathlib.Core.Option.{some-injective}
use campus_pilots.Base.{
  ℕ, Bool, true, false, none, some, List, [], ◌∷◌, ◌≡◌, refl, sym, ap, ◌∙◌, inl, inr, arith,
  Bool-cases, ◌==◌, ==→eq, find, find-none, find-update_where_kept, update_where, count_where,
  count-update_same, All, subst,
}
use campus_pilots.Agents.Trace.{
  AgentRun, AgentStep, RunStatus, Tables, Request, starting, appending, calling, moving_tool,
  moving_run, moving_step, finalizing, is_active, has_id, moved_run, moved_step, finalized, serve,
  history,
}
use campus_pilots.Agents.Trace.Steps.{
  expects, starting-cases, appending-cases, moving_run-cases, finalizing-cases, moving_step-cases,
  moving_tool-same, calling-same,
}

-- A transition of a run that expects active statuses only, as all calls of the runtime do.
abbrev pub ExpectsActive : ℕ × Request → Type 0
ExpectsActive (now, moving_run run_id expected status v) =
    (s : RunStatus) → expected s ≡ true → is_active s ≡ true
ExpectsActive (now, _) = Unit

abbrev pub is_of : ℕ → AgentStep → Bool
is_of run_id s = s.run_id == run_id

module _ (run_id : ℕ) (run : AgentRun) (over : is_active run.status ≡ false) where
  -- The run is there, with so many steps.
  abbrev IsOver : ℕ → Tables → Type 0
  IsOver n w = (find (has_id run_id) w.runs ≡ some run) × (count_where (is_of run_id) w.steps ≡ n)

  kept :
      (n id : ℕ) (expected : RunStatus → Bool) (f : AgentRun → AgentRun) (w : Tables)
      → ((r : AgentRun) → has_id run_id (f r) ≡ has_id run_id r)
      → ((s : RunStatus) → expected s ≡ true → is_active s ≡ true)
      → IsOver n w
      → IsOver n (record w { runs = update_where (expects id expected) f w.runs })
  kept n id expected f w same active (found, count) = (
    find-update_where_kept (has_id run_id) (expects id expected) f same w.runs found
        (elim (Bool-cases (expected run.status)) [
          | inl e ↦ (let k = active run.status e in cc)
          | inr e ↦ ground (arith, e)
        ]),
    count,
  )

  serve-IsOver :
      (n now : ℕ) (r : Request) (w : Tables)
      → ExpectsActive (now, r)
      → IsOver n w
      → IsOver n (serve now r w).1
  serve-IsOver n now (starting new) w x (found, count) = elim (starting-cases now new w) [
    | inl same ↦ rw same (found, count)
    | inr (fresh, added) ↦ elim (Bool-cases (new.id == run_id)) [
      | inl e ↦
          let gone : find (has_id run_id) w.runs ≡ none =
            subst (λ i. find (has_id i) w.runs ≡ none) (==→eq new.id run_id e)
              (find-none (has_id new.id) w.runs fresh) in
          (let k = sym found ∙ gone in cc)
      | inr e ↦ rw added (rw e found, count)
    ]
  ]
  serve-IsOver n now (appending new) w x (found, count) = elim (appending-cases now new w) [
    | inl same ↦ rw same (found, count)
    | inr (r, there, going, room, fresh, added) ↦ elim (Bool-cases (new.run_id == run_id)) [
      | inl e ↦
          let same : r ≡ run =
            some-injective r run (
              sym there ∙ (ap (λ i. find (has_id i) w.runs) (==→eq new.run_id run_id e) ∙ found)) in
          (let k = subst (λ (y : AgentRun). is_active y.status ≡ true) same going in cc)
      | inr e ↦ rw added (
        (kept n new.run_id is_active _ w (λ q. refl) (λ s h. h) (found, count)).0,
        rw e (omega (arith, count)),
      )
    ]
  ]
  serve-IsOver n now (calling new) w x h =
      let (runs, steps) = calling-same now new w in rw (runs, steps) h
  serve-IsOver n now (moving_tool call_id expected status v) w x h =
      let (runs, steps) = moving_tool-same now call_id expected status v w in rw (runs, steps) h
  serve-IsOver n now (moving_run id expected status v) w x h =
      elim (moving_run-cases now id expected status v w) [
        | inl same ↦ rw same h
        | inr new ↦ rw new (kept n id expected (moved_run now status v) w (λ q. refl) x h)
      ]
  serve-IsOver n now (moving_step step_id expected status v) w x (found, count) =
      elim (moving_step-cases now step_id expected status v w) [
        | inl same ↦ rw same (found, count)
        | inr new ↦ rw new (
          found,
          count-update_same _ (is_of run_id) (moved_step status v) (λ s. refl) w.steps ∙ count,
        )
      ]
  serve-IsOver n now (finalizing id status reason code) w x h =
      elim (finalizing-cases now id status reason code w) [
        | inl same ↦ rw same h
        | inr new ↦
            rw new
              (kept n id is_active (finalized now status reason code) w (λ q. refl) (λ s e. e) h)
      ]

  history-IsOver :
      (n : ℕ) (rs : List (ℕ × Request)) (w : Tables)
      → All ExpectsActive rs
      → IsOver n w
      → IsOver n (history rs w)
  history-IsOver n [] w x h = h
  history-IsOver n ((now, r) ∷ older) w x h =
      serve-IsOver n now r (history older w) x.0 (history-IsOver n older w x.1 h)

-- A run with a terminal status keeps its row and gets no more steps, whatever calls follow, as long
-- as the transitions of runs expect active statuses.
pub history-terminal :
    (rs : List (ℕ × Request)) (w : Tables) (run_id : ℕ) (run : AgentRun)
    → is_active run.status ≡ false
    → All ExpectsActive rs
    → find (has_id run_id) w.runs ≡ some run
    → (find (has_id run_id) (history rs w).runs ≡ some run)
      × (count_where (λ (s : AgentStep). s.run_id == run_id) (history rs w).steps
          ≡ count_where (λ (s : AgentStep). s.run_id == run_id) w.steps)
history-terminal rs w run_id run over x found =
    history-IsOver run_id run over (count_where (is_of run_id) w.steps) rs w x (found, refl)
