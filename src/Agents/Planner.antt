-- ===== src/Agents/Planner.antt =====
-- backend/app/modules/agent_platform/orchestration/supervisor.py: the plan for a routed request.
pub mod Laws
mod Tests
use campus_pilots.Base.{
  ℕ, suc, ◌-◌, String, Bool, true, false, not, ◌&&◌, ◌||◌, Option, none, some, List, [], ◌∷◌, ltb,
  ◌==◌, any, length, if◌then◌else◌,
}
use campus_pilots.Errors.{agent_max_steps_exceeded, key_error, value_error}
use campus_pilots.Exec.{Result, ok, raised, ◌|>◌}
use campus_pilots.Agents.Contracts.{
  AgentCode, knowledge_agent, service_agent, community_agent, governance_agent, modelops_agent,
  RouteTarget, knowledge, service, community, governance, modelops, clarify, RouteDecision,
  same_target, AgentTask, agent_task, SupervisorPlan, supervisor_plan, ready, needs_input,
}
use campus_pilots.Agents.Registry.{AgentRegistry, get_active}

-- What `SupervisorPlanner` is built with.
pub record Limits : Type 0 where
  pub max_steps : ℕ
  pub max_specialists : ℕ

-- `SupervisorPlanner.__init__`
unfoldable pub supervisor_planner : ℕ → ℕ → Result Limits
supervisor_planner steps specialists =
    if not (ltb 0 steps && ltb steps 7) || not (ltb 0 specialists && ltb specialists 4)
    then raised value_error
    else ok (record { max_steps = steps; max_specialists = specialists })

-- `_AGENT_BY_TARGET[target]`
abbrev pub agent_by_target : RouteTarget → Result AgentCode
agent_by_target knowledge = ok knowledge_agent
agent_by_target service = ok service_agent
agent_by_target community = ok community_agent
agent_by_target governance = ok governance_agent
agent_by_target modelops = ok modelops_agent
agent_by_target clarify = raised key_error

-- The loop over the targets: `left` of them are still to be found, and `seen` are found. The code
-- stops when the list is full.
abbrev pub choose_targets : ℕ → List RouteTarget → List RouteTarget → List RouteTarget
choose_targets left seen [] = []
choose_targets left seen (t ∷ ts) =
    let skip = same_target t clarify || any (λ s. same_target s t) seen in
    let rest =
      choose_targets (if skip then left else left - 1) (if skip then seen else t ∷ seen) ts in
    if skip then rest else (if left == 1 then t ∷ [] else t ∷ rest)

-- A request: `uuid5` gives the identifier of a run's task with a sequence number and an agent.
pub record PlanRequest {ℓ} (I : Type ℓ) : Type ℓ where
  pub agent_run_id : ℕ
  pub route : RouteDecision
  pub objective : String
  pub structured_input : I
  pub constraints : List String
  pub max_steps : Option ℕ

abbrev pub requested_steps : Option ℕ → ℕ → ℕ
requested_steps none limit = limit
requested_steps (some steps) limit = steps

abbrev pub depends : Option ℕ → List ℕ
depends none = []
depends (some previous) = previous ∷ []

-- `uuid5` gives the identifier of a run's task from the sequence number and the agent.
module _ {ℓ} {I : Type ℓ} (uuid5 : ℕ → ℕ → AgentCode → ℕ) (registry : AgentRegistry) where
  abbrev pub new_task : PlanRequest I → ℕ → ℕ → Option ℕ → AgentCode → Result (AgentTask I)
  new_task rq steps sequence previous agent = get_active agent registry |> λ _. agent_task (record {
    task_id = uuid5 rq.agent_run_id sequence agent;
    agent_run_id = rq.agent_run_id;
    parent_task_id = previous;
    target_agent = agent;
    objective = rq.objective;
    structured_input = rq.structured_input;
    depends_on = depends previous;
    constraints = rq.constraints;
    max_steps = steps;
  })

  -- The loop that builds the tasks, each of which depends on the one before it.
  abbrev pub build_tasks :
      PlanRequest I → ℕ → ℕ → Option ℕ → List RouteTarget → Result (List (AgentTask I))
  build_tasks rq steps sequence previous [] = ok []
  build_tasks rq steps sequence previous (t ∷ ts) = agent_by_target t |> λ agent.
      new_task rq steps sequence previous agent |> λ task.
      build_tasks rq steps (suc sequence) (some task.task_id) ts |> λ tasks. ok (task ∷ tasks)

  unfoldable pub plan : Limits → PlanRequest I → Result (SupervisorPlan I)
  plan limits rq =
      let steps = requested_steps rq.max_steps limits.max_steps in
      let route = rq.route in
      let targets =
        choose_targets limits.max_specialists [] (route.target_agent ∷ route.candidate_agents) in
      if ltb steps 1 || (ltb limits.max_steps steps || ltb 6 steps)
      then raised agent_max_steps_exceeded
      else (if same_target route.target_agent clarify
          then supervisor_plan (record {
            status = needs_input;
            route = route;
            tasks = [];
            reason_code = "SUPERVISOR_NEEDS_INPUT";
          })
          else (build_tasks rq steps 1 none targets |> λ tasks. supervisor_plan (record {
            status = ready;
            route = route;
            tasks = tasks;
            reason_code = "SUPERVISOR_PLAN_READY";
          })))
