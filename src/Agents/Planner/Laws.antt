-- ===== src/Agents/Planner/Laws.antt =====
-- The planner's plans pass the validation of a plan.
use campus_pilots.Base.{
  ℕ, suc, ◌+◌, ◌-◌, ◌≤◌, ◌<◌, ◌%◌, true, false, ◌||◌, Option, none, some, List, [], ◌∷◌, map, ◌≡◌,
  refl, ap, inl, inr, arith, Bool-cases, any, length, ltb, leb, ◌==◌, ==_refl,
}
use Prim.Native.String.{count}
use campus_pilots.Errors.{value_error}
use campus_pilots.Exec.{ok, raised}
use campus_pilots.Agents.Contracts.{
  AgentCode, supervisor, knowledge_agent, service_agent, community_agent, governance_agent,
  modelops_agent, RouteTarget, knowledge, service, community, governance, modelops, clarify, rank,
  agent_rank, same_target, same_agent, AgentTask, agent_task, SupervisorPlan, supervisor_plan,
  tasks_valid, no_tasks, parent_seen, subset, sorted_unique, ready,
}
use campus_pilots.Agents.Registry.{AgentRegistry, AgentRegistration, get_active}
use campus_pilots.Agents.Planner.{
  Limits, PlanRequest, supervisor_planner, agent_by_target, choose_targets, depends, new_task,
  build_tasks, requested_steps, plan,
}

-- The agents of the targets that are routed to.
abbrev agent_of : RouteTarget → AgentCode
agent_of knowledge = knowledge_agent
agent_of service = service_agent
agent_of community = community_agent
agent_of governance = governance_agent
agent_of modelops = modelops_agent
agent_of clarify = supervisor

agent_by_target-agent_of :
    (t : RouteTarget) → same_target t clarify ≡ false → agent_by_target t ≡ ok (agent_of t)
agent_by_target-agent_of knowledge h = refl
agent_by_target-agent_of service h = refl
agent_by_target-agent_of community h = refl
agent_by_target-agent_of governance h = refl
agent_by_target-agent_of modelops h = refl
agent_by_target-agent_of clarify h = cc

agent_rank-agent_of :
    (t : RouteTarget) → (agent_rank (agent_of t) ≡ (rank t + 5) % 6) × (rank t < 6)
agent_rank-agent_of knowledge = (refl, omega arith)
agent_rank-agent_of service = (refl, omega arith)
agent_rank-agent_of community = (refl, omega arith)
agent_rank-agent_of governance = (refl, omega arith)
agent_rank-agent_of modelops = (refl, omega arith)
agent_rank-agent_of clarify = (refl, omega arith)

same_agent-agent_of : (s t : RouteTarget) → same_agent (agent_of s) (agent_of t) ≡ same_target s t
same_agent-agent_of s t =
    let (es, bs) = agent_rank-agent_of s in
    let (et, bt) = agent_rank-agent_of t in rw (es, et) (ground arith)

-- Targets that are routed to, none of them twice and none of them seen.
Fresh : List RouteTarget → List RouteTarget → Type 0
Fresh seen [] = Unit
Fresh seen (t ∷ ts) =
    (same_target t clarify ≡ false)
    × (any (λ s. same_target s t) seen ≡ false)
    × Fresh (t ∷ seen) ts

choose_targets-Fresh :
    (left : ℕ) (seen ts : List RouteTarget) → Fresh seen (choose_targets left seen ts)
unfolding Fresh
choose_targets-Fresh left seen [] = tt
choose_targets-Fresh left seen (t ∷ ts) =
    elim (Bool-cases (same_target t clarify || any (λ s. same_target s t) seen)) [
      | inl e ↦ rw e (choose_targets-Fresh left seen ts)
      | inr e ↦ elim (Bool-cases (left == 1)) [
        | inl one ↦ rw (e, one) (ground (arith, e), ground (arith, e), tt)
        | inr more ↦
            rw (e, more)
              (ground (arith, e), ground (arith, e), choose_targets-Fresh (left - 1) (t ∷ seen) ts)
      ]
    ]

choose_targets-length :
    (left : ℕ) (seen ts : List RouteTarget) → 1 ≤ left → length (choose_targets left seen ts) ≤ left
choose_targets-length left seen [] h = omega arith
choose_targets-length left seen (t ∷ ts) h =
    elim (Bool-cases (same_target t clarify || any (λ s. same_target s t) seen)) [
      | inl e ↦ rw e (choose_targets-length left seen ts h)
      | inr e ↦ elim (Bool-cases (left == 1)) [
        | inl one ↦ rw (e, one) (omega arith)
        | inr more ↦
            rw (e, more) (ground (arith, more, choose_targets-length (left - 1) (t ∷ seen) ts))
      ]
    ]

agents-any :
    (t : RouteTarget) (seen : List RouteTarget)
    → any (λ a. same_agent a (agent_of t)) (map agent_of seen) ≡ any (λ s. same_target s t) seen
agents-any t [] = refl
agents-any t (s ∷ seen) = rw (same_agent-agent_of s t, agents-any t seen) refl

module _ {ℓ} {I : Type ℓ} (uuid5 : ℕ → ℕ → AgentCode → ℕ) (registry : AgentRegistry)
    (all_active : (c : AgentCode) → (r : AgentRegistration) × (get_active c registry ≡ ok r))
    (rq : PlanRequest I) (steps : ℕ)
    (objective_fits : (1 ≤ count rq.objective) × (count rq.objective ≤ 2000))
    (steps_fit : (1 ≤ steps) × (steps ≤ 6)) where
  -- The task of a target.
  abbrev task_of : ℕ → Option ℕ → AgentCode → AgentTask I
  task_of sequence previous agent = record {
    task_id = uuid5 rq.agent_run_id sequence agent;
    agent_run_id = rq.agent_run_id;
    parent_task_id = previous;
    target_agent = agent;
    objective = rq.objective;
    structured_input = rq.structured_input;
    depends_on = depends previous;
    constraints = sorted_unique rq.constraints;
    max_steps = steps;
  }

  new_task_lem :
      (sequence : ℕ) (previous : Option ℕ) (agent : AgentCode)
      → new_task uuid5 registry rq steps sequence previous agent
        ≡ ok (task_of sequence previous agent)
  unfolding agent_task
  new_task_lem sequence previous agent = rw ((all_active agent).1) (ground arith)

  -- The task before is among the seen ones.
  abbrev PreviousSeen : Option ℕ → List ℕ → Type 0
  PreviousSeen none seen_ids = Unit
  PreviousSeen (some previous) seen_ids = any (λ seen. seen == previous) seen_ids ≡ true

  previous-seen :
      (previous : Option ℕ) (seen_ids : List ℕ)
      → PreviousSeen previous seen_ids
      → (parent_seen previous seen_ids ≡ true) × (subset (depends previous) seen_ids ≡ true)
  previous-seen none seen_ids h = (refl, refl)
  previous-seen (some previous) seen_ids h = (h, rw h refl)

  build_tasks-valid :
      (sequence : ℕ) (previous : Option ℕ) (seen_ids : List ℕ) (seen ts : List RouteTarget)
      → PreviousSeen previous seen_ids
      → Fresh seen ts
      → (tasks : List (AgentTask I)) × (build_tasks uuid5 registry rq steps sequence previous ts
          ≡ ok tasks)
        × (tasks_valid seen_ids (map agent_of seen) tasks ≡ true)
        × (length tasks ≡ length ts)
  unfolding Fresh
  build_tasks-valid sequence previous seen_ids seen [] p f = ([], refl, refl, refl)
  build_tasks-valid sequence previous seen_ids seen (t ∷ ts) p f =
      let id = uuid5 rq.agent_run_id sequence (agent_of t) in
      let (tasks, built, valid, size) =
        build_tasks-valid (suc sequence) (some id) (id ∷ seen_ids) (t ∷ seen) ts
          (rw (==_refl id) refl) f.2 in
      (
        task_of sequence previous (agent_of t) ∷ tasks,
        rw (agent_by_target-agent_of t f.0, new_task_lem sequence previous (agent_of t), built)
            refl,
        rw
            (
              agents-any t seen,
              f.1,
              (previous-seen previous seen_ids p).0,
              (previous-seen previous seen_ids p).1,
              valid,
            )
            refl,
        ap suc size,
      )

limits_lem :
    (steps specialists : ℕ) (limits : Limits)
    → supervisor_planner steps specialists ≡ ok limits
    → (limits.max_steps ≤ 6)
      × (1 ≤ limits.max_specialists)
      × (limits.max_specialists ≤ 3)
      × (limits.max_specialists ≡ specialists)
unfolding supervisor_planner
limits_lem steps specialists limits h =
    (ground (arith, h), ground (arith, h), ground (arith, h), ground (arith, h))

choose_targets-first :
    (left : ℕ) (t : RouteTarget) (ts : List RouteTarget)
    → same_target t clarify ≡ false
    → 1 ≤ length (choose_targets left [] (t ∷ ts))
choose_targets-first left t ts h = elim (Bool-cases (left == 1)) [
  | inl e ↦ rw (h, e) (omega arith)
  | inr e ↦ rw (h, e) (omega arith)
]

in_range :
    (steps limit : ℕ)
    → 1 ≤ steps
    → steps ≤ limit
    → limit ≤ 6
    → (ltb steps 1 || (ltb limit steps || ltb 6 steps)) ≡ false
in_range steps limit low high six = ground arith

some_tasks {ℓ} :
    {I : Type ℓ} (tasks : List (AgentTask I)) → 1 ≤ length tasks → no_tasks tasks ≡ false
some_tasks [] h = absurd (omega arith)
some_tasks (t ∷ ts) h = refl

-- For a planner that its constructor accepts, a route to an agent, a number of steps within the
-- planner's, an objective of 1 to 2000 characters and a registry where each agent has an active
-- version, `plan` returns a plan, and the plan has one to `max_specialists` tasks, no agent twice,
-- and each task after its parent and its dependencies.
pub plan-valid {ℓ} :
    {I : Type ℓ} (uuid5 : ℕ → ℕ → AgentCode → ℕ) (registry : AgentRegistry) (steps specialists : ℕ)
    (limits : Limits) (rq : PlanRequest I)
    → ((c : AgentCode) → (r : AgentRegistration) × (get_active c registry ≡ ok r))
    → supervisor_planner steps specialists ≡ ok limits
    → 1 ≤ requested_steps rq.max_steps limits.max_steps
    → requested_steps rq.max_steps limits.max_steps ≤ limits.max_steps
    → 1 ≤ count rq.objective
    → count rq.objective ≤ 2000
    → same_target rq.route.target_agent clarify ≡ false
    → (p : SupervisorPlan I) × (plan uuid5 registry limits rq ≡ ok p)
      × (p.route ≡ rq.route)
      × (1 ≤ length p.tasks)
      × (length p.tasks ≤ specialists)
      × (tasks_valid [] [] p.tasks ≡ true)
unfolding plan supervisor_planner supervisor_plan
plan-valid uuid5 registry steps specialists limits rq active accepted low high short long routed =
    let (six, one, three, same) = limits_lem steps specialists limits accepted in
    let route = rq.route in
    let chosen =
      choose_targets limits.max_specialists [] (route.target_agent ∷ route.candidate_agents) in
    let (tasks, built, valid, size) =
      build_tasks-valid uuid5 registry active rq (requested_steps rq.max_steps limits.max_steps)
        (short, long) (low, omega arith) 1 none [] [] chosen tt
        (choose_targets-Fresh limits.max_specialists []
          (route.target_agent ∷ route.candidate_agents)) in
    let first =
      choose_targets-first limits.max_specialists route.target_agent route.candidate_agents
        routed in
    let bound =
      choose_targets-length limits.max_specialists [] (route.target_agent ∷ route.candidate_agents)
        one in
    let least : 1 ≤ length tasks = omega (arith, size, first) in
    let most : length tasks ≤ limits.max_specialists = omega (arith, size, bound) in
    let in_limit =
      in_range (requested_steps rq.max_steps limits.max_steps) limits.max_steps low high six in
    let three_tasks : leb (length tasks) 3 ≡ true = ground (arith, most, three) in
    (
      record {
        status = ready;
        route = route;
        tasks = tasks;
        reason_code = "SUPERVISOR_PLAN_READY";
      },
      rw (in_limit, built, routed, three_tasks, some_tasks tasks least, valid) refl,
      refl,
      least,
      omega (arith, most, same),
      valid,
    )

new_task-long {ℓ} :
    {I : Type ℓ} (uuid5 : ℕ → ℕ → AgentCode → ℕ) (registry : AgentRegistry) (rq : PlanRequest I)
    (steps sequence : ℕ) (previous : Option ℕ) (agent : AgentCode)
    → ((c : AgentCode) → (r : AgentRegistration) × (get_active c registry ≡ ok r))
    → 2000 < count rq.objective
    → new_task uuid5 registry rq steps sequence previous agent ≡ raised value_error
unfolding agent_task
new_task-long uuid5 registry rq steps sequence previous agent active long =
    rw ((active agent).1) (ground arith)

build_tasks-long {ℓ} :
    {I : Type ℓ} (uuid5 : ℕ → ℕ → AgentCode → ℕ) (registry : AgentRegistry) (rq : PlanRequest I)
    (steps sequence : ℕ) (previous : Option ℕ) (seen ts : List RouteTarget)
    → ((c : AgentCode) → (r : AgentRegistration) × (get_active c registry ≡ ok r))
    → 2000 < count rq.objective
    → Fresh seen ts
    → 1 ≤ length ts
    → build_tasks uuid5 registry rq steps sequence previous ts ≡ raised value_error
unfolding Fresh
build_tasks-long uuid5 registry rq steps sequence previous seen [] active long f h =
    absurd (omega arith)
build_tasks-long uuid5 registry rq steps sequence previous seen (t ∷ ts) active long f h =
    let refused =
      new_task-long uuid5 registry rq steps sequence previous (agent_of t) active long in
    rw (agent_by_target-agent_of t f.0, refused) refl

-- Where every agent has an active version, no plan is made for an objective of more than 2000
-- characters that is routed to an agent: the construction of the first task refuses it.
pub plan-long_objective {ℓ} :
    {I : Type ℓ} (uuid5 : ℕ → ℕ → AgentCode → ℕ) (registry : AgentRegistry) (steps specialists : ℕ)
    (limits : Limits) (rq : PlanRequest I)
    → ((c : AgentCode) → (r : AgentRegistration) × (get_active c registry ≡ ok r))
    → supervisor_planner steps specialists ≡ ok limits
    → 1 ≤ requested_steps rq.max_steps limits.max_steps
    → requested_steps rq.max_steps limits.max_steps ≤ limits.max_steps
    → 2000 < count rq.objective
    → same_target rq.route.target_agent clarify ≡ false
    → plan uuid5 registry limits rq ≡ raised value_error
unfolding plan agent_task
plan-long_objective uuid5 registry steps specialists limits rq active accepted low high long
      routed =
    let (six, one, three, same) = limits_lem steps specialists limits accepted in
    let in_limit =
      in_range (requested_steps rq.max_steps limits.max_steps) limits.max_steps low high six in
    let targets = rq.route.target_agent ∷ rq.route.candidate_agents in
    let chosen = choose_targets limits.max_specialists [] targets in
    let refused =
      build_tasks-long uuid5 registry rq (requested_steps rq.max_steps limits.max_steps) 1 none []
        chosen active long (choose_targets-Fresh limits.max_specialists [] targets)
        (choose_targets-first limits.max_specialists rq.route.target_agent rq.route.candidate_agents
          routed) in
    rw (in_limit, refused, routed) refl
