-- ===== src/Agents/Router.antt =====
-- backend/app/modules/agent_platform/orchestration/router.py: which agent a text goes to.
pub mod Laws
mod Tests
use Prim.Native.String.{count}
use campus_pilots.Base.{
  ℕ, String, Bool, true, false, not, ◌&&◌, ◌||◌, Option, none, some, List, [], ◌∷◌, leb, ltb, ◌==◌,
  any, filter, if◌then◌else◌, str_eq,
}
use campus_pilots.Base.Text.{strip}
use campus_pilots.Errors.{invalid_agent_input}
use campus_pilots.Exec.{Result, ok, raised, ◌|>◌}
use campus_pilots.Agents.Contracts.{
  RouteTarget, knowledge, service, community, governance, modelops, clarify, RouteSource, rule,
  local_model, deepseek, RouteDecision, route_decision, same_target,
}

-- A router service: what a port gives for a text, `none` where the call raises, times out or gives
-- no valid decision, and where there is no port. A confidence is counted in steps of 0.0001.
pub record RouterService : Type 0 where
  pub threshold : ℕ
  pub local_router : String → Option RouteDecision
  pub deepseek_router : String → Option RouteDecision
  -- `str.casefold`, and whether the first text stands in the second.
  pub casefold : String → String
  pub is_in : String → String → Bool

abbrev source_rank : RouteSource → ℕ
source_rank rule = 0
source_rank local_model = 1
source_rank deepseek = 2

abbrev pub same_source : RouteSource → RouteSource → Bool
same_source a b = source_rank a == source_rank b

abbrev pub domain_order : List RouteTarget
domain_order = knowledge ∷ service ∷ community ∷ governance ∷ modelops ∷ []

abbrev pub keywords : RouteTarget → List String
keywords knowledge = "知识" ∷ "文档" ∷ "规定" ∷ "政策" ∷ "图书馆" ∷ "问答" ∷ "knowledge" ∷ []
keywords service = "指南" ∷ "办理" ∷ "报修" ∷ "工单" ∷ "电费" ∷ "充值" ∷ "宿舍" ∷ "材料" ∷ "service" ∷ "repair" ∷ []
keywords community =
    "社区" ∷ "话题" ∷ "帖子" ∷ "树洞" ∷ "活动" ∷ "报名" ∷ "失物" ∷ "拾物" ∷ "丢失" ∷ "招领" ∷ "event" ∷ "lost" ∷ []
keywords governance = "审核" ∷ "敏感词" ∷ "权限" ∷ "审计" ∷ "安全策略" ∷ "governance" ∷ []
keywords modelops = "数据集" ∷ "训练" ∷ "模型" ∷ "评估" ∷ "微调" ∷ "lora" ∷ "modelops" ∷ []
keywords clarify = []

abbrev pub clarification : RouteDecision
clarification = record {
  target_agent = clarify;
  confidence = 0;
  source = rule;
  reason_code = "ROUTE_CLARIFICATION_REQUIRED";
  model_version_id = none;
  candidate_agents = [];
}

abbrev take_three : List RouteTarget → List RouteTarget
take_three (a ∷ b ∷ c ∷ rest) = a ∷ b ∷ c ∷ []
take_three ts = ts

abbrev pub rule_decision : List RouteTarget → Result RouteDecision
rule_decision [] = route_decision (record {
  target_agent = clarify;
  confidence = 4000;
  source = rule;
  reason_code = "ROUTE_NO_RULE_MATCH";
  model_version_id = none;
  candidate_agents = [];
})
rule_decision (t ∷ []) = route_decision (record {
  target_agent = t;
  confidence = 9500;
  source = rule;
  reason_code = "ROUTE_RULE_SINGLE";
  model_version_id = none;
  candidate_agents = [];
})
rule_decision (t ∷ u ∷ ts) = route_decision (record {
  target_agent = t;
  confidence = 8500;
  source = rule;
  reason_code = "ROUTE_RULE_MULTI";
  model_version_id = none;
  candidate_agents = take_three (t ∷ u ∷ ts);
})

unfoldable pub route_by_rule : RouterService → String → Result RouteDecision
route_by_rule x text =
    let lowered = x.casefold text in
    rule_decision (filter (λ t. any (λ keyword. x.is_in keyword lowered) (keywords t)) domain_order)

abbrev pub expected : RouteSource → Option RouteDecision → Option RouteDecision
expected source none = none
expected source (some d) =
    if not (same_source d.source source) || same_target d.target_agent clarify then none else some d

-- `_route_with_port`
abbrev pub route_with_port :
    (String → Option RouteDecision) → String → RouteSource → Option RouteDecision
route_with_port port text source = expected source (port text)

abbrev pub without_candidates : RouteDecision → RouteDecision
without_candidates d = record {
  target_agent = d.target_agent;
  confidence = d.confidence;
  source = d.source;
  reason_code = d.reason_code;
  model_version_id = d.model_version_id;
  candidate_agents = [];
}

abbrev pub confident : ℕ → RouteDecision → RouteDecision → RouteDecision
confident threshold d answer = if leb threshold d.confidence then answer else clarification

abbrev pub by_rule : ℕ → RouteDecision → RouteDecision
by_rule threshold d =
    if not (same_target d.target_agent clarify) && leb threshold d.confidence
    then d
    else clarification

abbrev pub route_locally : RouterService → String → Option RouteDecision → Result RouteDecision
route_locally x text (some d) = ok (confident x.threshold d d)
route_locally x text none = route_by_rule x text |> λ d. ok (by_rule x.threshold d)

abbrev pub route_remotely : RouterService → String → Option RouteDecision → Result RouteDecision
route_remotely x text (some d) = ok (confident x.threshold d (without_candidates d))
route_remotely x text none = route_locally x text (route_with_port x.local_router text local_model)

unfoldable pub route : RouterService → String → Result RouteDecision
route x text =
    let normalized = strip text in
    if str_eq normalized "" || ltb 4000 (count normalized)
    then raised invalid_agent_input
    else route_remotely x normalized (route_with_port x.deepseek_router normalized deepseek)
