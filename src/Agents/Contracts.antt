-- ===== src/Agents/Contracts.antt =====
-- backend/app/modules/agent_platform/domain/contracts.py: routes, tasks and plans, with the
-- validators that pydantic runs when one is built. A confidence is counted in steps of 0.0001.
pub mod Codes
use Prim.Native.String.{count, compare}
use Prim.Native.Nat.{Ordering}
use campus_pilots.Base.{
  ℕ, String, Bool, true, false, not, ◌&&◌, ◌||◌, Option, none, some, List, [], ◌∷◌, leb, ltb, ◌==◌,
  any, all, filter, length, str_eq, if◌then◌else◌,
}
use campus_pilots.Base.Sort.{sort}
use campus_pilots.Errors.{value_error}
use campus_pilots.Exec.{Result, ok, raised}

pub data AgentCode : Type 0 where
  supervisor knowledge_agent service_agent community_agent governance_agent modelops_agent :
      AgentCode

pub data RouteTarget : Type 0 where
  knowledge service community governance modelops clarify : RouteTarget

pub data RouteSource : Type 0 where
  rule local_model deepseek : RouteSource

pub data PlanStatus : Type 0 where
  ready needs_input : PlanStatus

-- The place of a target in the order of the texts.
abbrev pub rank : RouteTarget → ℕ
rank clarify = 0
rank community = 1
rank governance = 2
rank knowledge = 3
rank modelops = 4
rank service = 5

abbrev pub same_target : RouteTarget → RouteTarget → Bool
same_target a b = rank a == rank b

abbrev pub agent_rank : AgentCode → ℕ
agent_rank community_agent = 0
agent_rank governance_agent = 1
agent_rank knowledge_agent = 2
agent_rank modelops_agent = 3
agent_rank service_agent = 4
agent_rank supervisor = 5

abbrev pub same_agent : AgentCode → AgentCode → Bool
same_agent a b = agent_rank a == agent_rank b

-- The elements of `set(values)`.
abbrev pub distinct {ℓ} : {A : Type ℓ} → (A → A → Bool) → List A → List A
distinct same [] = []
distinct same (x ∷ xs) = let rest = distinct same xs in if any (same x) rest then rest else x ∷ rest

-- `_sorted_unique` on route targets and on texts.
abbrev pub sorted_targets : List RouteTarget → List RouteTarget
sorted_targets values = sort (λ a b. ltb (rank b) (rank a)) (distinct same_target values)

abbrev after : String → String → Bool
after a b = elim (compare a b) [ Ordering.gt ↦ true | _ ↦ false ]

abbrev pub sorted_unique : List String → List String
sorted_unique values = sort after (distinct str_eq values)

pub record RouteDecision : Type 0 where
  pub target_agent : RouteTarget
  pub confidence : ℕ
  pub source : RouteSource
  pub reason_code : String
  pub model_version_id : Option ℕ
  pub candidate_agents : List RouteTarget

abbrev pub normalized : RouteDecision → RouteDecision
normalized d = record {
  target_agent = d.target_agent;
  confidence = d.confidence;
  source = d.source;
  reason_code = d.reason_code;
  model_version_id = d.model_version_id;
  candidate_agents = sorted_targets d.candidate_agents;
}

-- Building a decision: the confidence is at most 1, and three candidates are allowed after they
-- are sorted and made unique.
unfoldable pub route_decision : RouteDecision → Result RouteDecision
route_decision d =
    if leb d.confidence 10000 && leb (length (sorted_targets d.candidate_agents)) 3
    then ok (normalized d)
    else raised value_error

-- `I` is the type of the structured input.
pub record AgentTask {ℓ} (I : Type ℓ) : Type ℓ where
  pub task_id : ℕ
  pub agent_run_id : ℕ
  pub parent_task_id : Option ℕ
  pub target_agent : AgentCode
  pub objective : String
  pub structured_input : I
  pub depends_on : List ℕ
  pub constraints : List String
  pub max_steps : ℕ

pub record SupervisorPlan {ℓ} (I : Type ℓ) : Type ℓ where
  pub status : PlanStatus
  pub route : RouteDecision
  pub tasks : List (AgentTask I)
  pub reason_code : String

abbrev pub parent_seen : Option ℕ → List ℕ → Bool
parent_seen none seen_ids = true
parent_seen (some parent) seen_ids = any (λ seen. seen == parent) seen_ids

abbrev pub subset : List ℕ → List ℕ → Bool
subset ids seen_ids = all (λ id. any (λ seen. seen == id) seen_ids) ids

module _ {ℓ} {I : Type ℓ} where
  -- Building a task: the objective has 1 to 2000 characters, and a task 1 to 6 steps. The sets of
  -- identifiers and texts are sorted; a task that the planner builds depends on one task at most.
  unfoldable pub agent_task : AgentTask I → Result (AgentTask I)
  agent_task t =
      if leb 1 (count t.objective)
        && (leb (count t.objective) 2000 && (leb 1 t.max_steps && leb t.max_steps 6))
      then ok (record {
        task_id = t.task_id;
        agent_run_id = t.agent_run_id;
        parent_task_id = t.parent_task_id;
        target_agent = t.target_agent;
        objective = t.objective;
        structured_input = t.structured_input;
        depends_on = t.depends_on;
        constraints = sorted_unique t.constraints;
        max_steps = t.max_steps;
      })
      else raised value_error

  -- The loop of `validate_plan`: no agent twice, and parents and dependencies stand earlier.
  abbrev pub tasks_valid : List ℕ → List AgentCode → List (AgentTask I) → Bool
  tasks_valid seen_ids seen_agents [] = true
  tasks_valid seen_ids seen_agents (t ∷ ts) =
      not (any (λ seen. same_agent seen t.target_agent) seen_agents)
      && (parent_seen t.parent_task_id seen_ids
          && (subset t.depends_on seen_ids
              && tasks_valid (t.task_id ∷ seen_ids) (t.target_agent ∷ seen_agents) ts))

  abbrev pub no_tasks : List (AgentTask I) → Bool
  no_tasks [] = true
  no_tasks (_ ∷ _) = false

  abbrev pub plan_valid : PlanStatus → RouteTarget → List (AgentTask I) → Bool
  plan_valid needs_input target tasks = same_target target clarify && no_tasks tasks
  plan_valid ready target tasks =
      not (same_target target clarify) && (not (no_tasks tasks) && tasks_valid [] [] tasks)

  -- Building a plan: three tasks at most, and `validate_plan`.
  unfoldable pub supervisor_plan : SupervisorPlan I → Result (SupervisorPlan I)
  supervisor_plan p =
      if leb (length p.tasks) 3 && plan_valid p.status p.route.target_agent p.tasks
      then ok p
      else raised value_error
