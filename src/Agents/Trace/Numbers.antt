-- ===== src/Agents/Trace/Numbers.antt =====
-- The steps of a run are numbered from 1 to its step count, which is 6 at most.
use campus_pilots.Base.{
  ℕ, ◌+◌, ◌≤◌, ◌<◌, Bool, true, false, ◌&&◌, Option, none, some, List, [], ◌∷◌, ◌≡◌, refl, ap, ◌∙◌,
  inl, inr, arith, Bool-cases, if◌then◌else◌, leb, ◌==◌, ==→eq, find, find-hit, find-none,
  find-update_where, any, update_where, count_where, count-update_same, subst,
}
use campus_pilots.Agents.Trace.{
  AgentRun, AgentStep, Tables, NewRun, NewStep, Request, starting, appending, calling, moving_tool,
  moving_run, moving_step, finalizing, is_active, has_id, new_run, stepped, specialist, moved_run,
  moved_step, finalized, serve, history,
}
use campus_pilots.Agents.Trace.Steps.{
  expects, with_step, starting-cases, appending-cases, moving_run-cases, finalizing-cases,
  moving_step-cases, moving_tool-same, calling-same,
}

abbrev pub count_of : Option AgentRun → ℕ
count_of none = 0
count_of (some r) = r.step_count

-- The step count of a run, 0 where there is none.
abbrev pub total : ℕ → List AgentRun → ℕ
total id runs = count_of (find (has_id id) runs)

abbrev pub is_numbered : ℕ → ℕ → AgentStep → Bool
is_numbered id k s = s.run_id == id && s.sequence_no == k

abbrev once : Bool → ℕ
once b = if b then 1 else 0

-- Steps and counts agree, and the counts are bounded.
abbrev IsNumbered : List AgentRun → List AgentStep → Type 0
IsNumbered runs steps =
    (id : ℕ)
    → (total id runs ≤ 6)
      × ((k : ℕ) → count_where (is_numbered id k) steps ≡ once (leb 1 k && leb k (total id runs)))

total-update :
    (id : ℕ) (p : AgentRun → Bool) (f : AgentRun → AgentRun)
    → ((r : AgentRun) → has_id id (f r) ≡ has_id id r)
    → ((r : AgentRun) → has_id id r ≡ true → p r ≡ true → (f r).step_count ≡ r.step_count)
    → (runs : List AgentRun) → total id (update_where p f runs) ≡ total id runs
total-update id p f same keep [] = refl
total-update id p f same keep (r ∷ runs) = elim (Bool-cases (p r)) [
  | inl hit ↦ elim (Bool-cases (has_id id r)) [
    | inl here ↦ rw (hit, same r, here) (keep r here hit)
    | inr there ↦ rw (hit, same r, there) (total-update id p f same keep runs)
  ]
  | inr miss ↦ elim (Bool-cases (has_id id r)) [
    | inl here ↦ rw (miss, here) refl
    | inr there ↦ rw (miss, there) (total-update id p f same keep runs)
  ]
]

moved-IsNumbered :
    (p : AgentRun → Bool) (f : AgentRun → AgentRun) (runs : List AgentRun) (steps : List AgentStep)
    → ((id : ℕ) (r : AgentRun) → has_id id (f r) ≡ has_id id r)
    → ((r : AgentRun) → (f r).step_count ≡ r.step_count)
    → IsNumbered runs steps
    → IsNumbered (update_where p f runs) steps
moved-IsNumbered p f runs steps same keep h id =
    rw (total-update id p f (same id) (λ r here hit. keep r) runs) (h id)

total-stepped :
    (now id run_id sequence specialists : ℕ) (run : AgentRun) (runs : List AgentRun)
    → find (has_id run_id) runs ≡ some run
    → is_active run.status ≡ true
    → total id (update_where (expects run_id is_active) (stepped now sequence specialists) runs)
      ≡ (if run_id == id then sequence else total id runs)
total-stepped now id run_id sequence specialists run runs found going =
    elim (Bool-cases (run_id == id)) [
      | inl e ↦
          let same : run_id ≡ id = ==→eq run_id id e in
          let here : expects run_id is_active run ≡ true =
            rw (find-hit (has_id run_id) runs found, going) refl in
          rw (e, ← same)
            (ap count_of (
              find-update_where (has_id run_id) (expects run_id is_active)
                (stepped now sequence specialists) (λ x. refl) runs found here))
      | inr e ↦ rw e (
          total-update id (expects run_id is_active) (stepped now sequence specialists) (λ r. refl)
            (λ r here hit. ground (arith, here, hit, e)) runs)
    ]

appended-IsNumbered :
    (now : ℕ) (n : NewStep) (run : AgentRun) (w : Tables)
    → find (has_id n.run_id) w.runs ≡ some run
    → is_active run.status ≡ true
    → run.step_count < 6
    → IsNumbered w.runs w.steps
    → IsNumbered (with_step now n run w).runs (with_step now n run w).steps
appended-IsNumbered now n run w found going room h id =
    let grown =
      total-stepped now id n.run_id (run.step_count + 1)
        (run.specialist_count + specialist n.agent_code) run w.runs found going in
    let (bound, numbered) = h id in
    elim (Bool-cases (n.run_id == id)) [
      | inl e ↦
          let same : n.run_id ≡ id = ==→eq n.run_id id e in
          let old : total id w.runs ≡ run.step_count = ap count_of (rw same at found) in
          rw (grown, e) (omega arith, λ k. ground (arith, e, numbered k, old))
      | inr e ↦ rw (grown, e) (bound, λ k. ground (arith, e, numbered k))
    ]

started-IsNumbered :
    (now : ℕ) (n : NewRun) (runs : List AgentRun) (steps : List AgentStep)
    → any (has_id n.id) runs ≡ false
    → IsNumbered runs steps
    → IsNumbered (new_run now n ∷ runs) steps
started-IsNumbered now n runs steps fresh h id = elim (Bool-cases (n.id == id)) [
  | inl e ↦
      let same : n.id ≡ id = ==→eq n.id id e in
      let before : total id runs ≡ 0 =
        ap count_of
          (subst (λ i. find (has_id i) runs ≡ none) same (find-none (has_id n.id) runs fresh)) in
      rw e (omega arith, λ k. ground (arith, (h id).1 k, before))
  | inr e ↦ rw e (h id)
]

serve-IsNumbered :
    (now : ℕ) (r : Request) (w : Tables)
    → IsNumbered w.runs w.steps
    → IsNumbered (serve now r w).1.runs (serve now r w).1.steps
serve-IsNumbered now (starting n) w h = elim (starting-cases now n w) [
  | inl same ↦ rw same h
  | inr (fresh, new) ↦ rw new (started-IsNumbered now n w.runs w.steps fresh h)
]
serve-IsNumbered now (appending n) w h = elim (appending-cases now n w) [
  | inl same ↦ rw same h
  | inr (run, found, going, room, fresh, new) ↦
      rw new (appended-IsNumbered now n run w found going room h)
]
serve-IsNumbered now (calling n) w h =
    let (runs, steps) = calling-same now n w in rw (runs, steps) h
serve-IsNumbered now (moving_tool call_id expected status v) w h =
    let (runs, steps) = moving_tool-same now call_id expected status v w in rw (runs, steps) h
serve-IsNumbered now (moving_run run_id expected status v) w h =
    elim (moving_run-cases now run_id expected status v w) [
      | inl same ↦ rw same h
      | inr new ↦
          rw new
            (moved-IsNumbered _ (moved_run now status v) w.runs w.steps (λ i r. refl) (λ r. refl) h)
    ]
serve-IsNumbered now (moving_step step_id expected status v) w h =
    elim (moving_step-cases now step_id expected status v w) [
      | inl same ↦ rw same h
      | inr new ↦ rw new (λ id. (
        (h id).0,
        λ k.
            count-update_same _ (is_numbered id k) (moved_step status v) (λ s. refl) w.steps
            ∙ (h id).1 k,
      ))
    ]
serve-IsNumbered now (finalizing run_id status reason code) w h =
    elim (finalizing-cases now run_id status reason code w) [
      | inl same ↦ rw same h
      | inr new ↦ rw new (
          moved-IsNumbered _ (finalized now status reason code) w.runs w.steps (λ i r. refl)
            (λ r. refl) h)
    ]

history-IsNumbered :
    (rs : List (ℕ × Request)) (w : Tables)
    → w.runs ≡ []
    → w.steps ≡ []
    → IsNumbered (history rs w).runs (history rs w).steps
history-IsNumbered [] w e e' = λ id. rw (e, e') (omega arith, λ k. ground arith)
history-IsNumbered ((now, r) ∷ older) w e e' =
    serve-IsNumbered now r (history older w) (history-IsNumbered older w e e')

-- Starting from empty tables, after any history of calls a run has at most six steps, and its step
-- numbers are 1, 2, … up to its step count, each of them once.
pub history-numbered :
    (rs : List (ℕ × Request)) (w : Tables) (run_id : ℕ) (run : AgentRun)
    → w.runs ≡ []
    → w.steps ≡ []
    → find (has_id run_id) (history rs w).runs ≡ some run
    → (run.step_count ≤ 6)
      × ((k : ℕ)
          → count_where
              (λ (s : AgentStep). s.run_id == run_id && s.sequence_no == k)
              (history rs w).steps
            ≡ (if leb 1 k && leb k run.step_count then 1 else 0))
history-numbered rs w run_id run e e' found =
    let (bound, numbered) = history-IsNumbered rs w e e' run_id in
    let same : total run_id (history rs w).runs ≡ run.step_count = ap count_of found in
    (
      omega (arith, bound, same),
      λ k. numbered k ∙ ap (λ (n : ℕ). if leb 1 k && leb k n then 1 else 0) same,
    )
