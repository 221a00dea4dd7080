-- ===== src/Agents/Planner/Tests.antt =====
-- A registry with all agents, and a plan for two of them.
use Prim.Native.String.{◌∷◌ as char_cons, char_at, count}
use Prim.Native.String.count
use campus_pilots.Base.{
  ℕ, zero, suc, ap, ◌+◌, ◌*◌, ◌≤◌, String, true, none, List, [], ◌∷◌, ◌≡◌, ◌∙◌, refl, arith, length,
}
use campus_pilots.Errors.{value_error}
use campus_pilots.Exec.{ok, raised}
use campus_pilots.Agents.Contracts.{
  AgentCode, supervisor, knowledge_agent, service_agent, community_agent, governance_agent,
  modelops_agent, agent_rank, community, service, deepseek, RouteDecision, SupervisorPlan,
  tasks_valid,
}
use campus_pilots.Agents.Registry.{
  AgentRegistry, AgentRegistration, active, get_active, register, register_all, is_active_of,
}
use campus_pilots.Agents.Registry.Laws.{register_all-IsSingle, get_active-register}
use campus_pilots.Agents.Planner.{Limits, PlanRequest, supervisor_planner, plan}
use campus_pilots.Agents.Planner.Laws.{plan-valid, plan-long_objective}
use campus_pilots.Base.{count_where}

abbrev registration : AgentCode → AgentRegistration
registration c = record {
  definition = record { code = c; name = "agent"; description = "an agent"; enabled = true };
  version = record { agent_code = c; version = (1, 0, 0); tool_allowlist = []; status = active };
}

abbrev empty : AgentRegistry
empty = record { definitions = []; versions = [] }

abbrev agents : List AgentRegistration
agents =
    registration supervisor
    ∷ registration knowledge_agent
    ∷ registration service_agent
    ∷ registration community_agent
    ∷ registration governance_agent
    ∷ registration modelops_agent
    ∷ []

abbrev registry : AgentRegistry
registry = (register_all agents empty).1

registry-active : (c : AgentCode) → (r : AgentRegistration) × (get_active c registry ≡ ok r)
unfolding get_active register
registry-active supervisor = (registration supervisor, refl)
registry-active knowledge_agent = (registration knowledge_agent, refl)
registry-active service_agent = (registration service_agent, refl)
registry-active community_agent = (registration community_agent, refl)
registry-active governance_agent = (registration governance_agent, refl)
registry-active modelops_agent = (registration modelops_agent, refl)

register_all-IsSingle_example :
    count_where (is_active_of service_agent) (register_all agents empty).1.versions ≤ 1
register_all-IsSingle_example =
    register_all-IsSingle agents empty (refl, (refl, (refl, (refl, (refl, (refl, tt))))))
      (λ code. omega arith) service_agent

get_active-register_example :
    get_active service_agent (register (registration service_agent) empty).1
    ≡ ok (registration service_agent)
unfolding register
get_active-register_example =
    get_active-register (registration service_agent) empty refl refl refl refl

abbrev route : RouteDecision
route = record {
  target_agent = service;
  confidence = 9500;
  source = deepseek;
  reason_code = "ROUTE_MODEL";
  model_version_id = none;
  candidate_agents = community ∷ service ∷ [];
}

abbrev request : PlanRequest ℕ
request = record {
  agent_run_id = 7;
  route = route;
  objective = "repair the lamp";
  structured_input = 0;
  constraints = [];
  max_steps = none;
}

abbrev limits : Limits
limits = record { max_steps = 6; max_specialists = 3 }

abbrev uuid5 : ℕ → ℕ → AgentCode → ℕ
uuid5 run sequence c = 100 * run + 10 * sequence + agent_rank c

plan-valid_example :
    (p : SupervisorPlan ℕ) × (plan uuid5 registry limits request ≡ ok p)
    × (p.route ≡ route)
    × (1 ≤ length p.tasks)
    × (length p.tasks ≤ 3)
    × (tasks_valid [] [] p.tasks ≡ true)
unfolding supervisor_planner
plan-valid_example =
    plan-valid uuid5 registry 6 3 limits request registry-active refl (omega arith) (omega arith)
      (omega arith) (omega arith) refl

letters : ℕ → String
letters zero = ""
letters (suc n) = char_cons (char_at "a" 0) (letters n)

count-letters : (n : ℕ) → count (letters n) ≡ n
unfolding letters
count-letters zero = refl
count-letters (suc n) = (λ i. count.cons (char_at "a" 0) (letters n) i) ∙ ap suc (count-letters n)

abbrev long_request : PlanRequest ℕ
long_request = record {
  agent_run_id = 7;
  route = route;
  objective = letters 2001;
  structured_input = 0;
  constraints = [];
  max_steps = none;
}

plan-long_objective_example : plan uuid5 registry limits long_request ≡ raised value_error
unfolding supervisor_planner
plan-long_objective_example =
    plan-long_objective uuid5 registry 6 3 limits long_request registry-active refl (omega arith)
      (omega arith) (omega (arith, count-letters 2001)) refl
