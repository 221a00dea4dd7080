-- ===== src/Agents/Contracts/Codes.antt =====
-- The tests of codes and targets are equality.
use campus_pilots.Base.{ℕ, zero, suc, true, ◌≡◌, refl, sym, ap, ◌∙◌, ==→eq}
use campus_pilots.Agents.Contracts.{
  AgentCode, supervisor, knowledge_agent, service_agent, community_agent, governance_agent,
  modelops_agent, RouteTarget, knowledge, service, community, governance, modelops, clarify, rank,
  agent_rank, same_target, same_agent,
}

-- Codes and targets are told apart by their ranks.
abbrev of_rank : ℕ → RouteTarget
of_rank zero = clarify
of_rank (suc zero) = community
of_rank (suc (suc zero)) = governance
of_rank (suc (suc (suc zero))) = knowledge
of_rank (suc (suc (suc (suc zero)))) = modelops
of_rank (suc (suc (suc (suc (suc n))))) = service

of_rank-rank : (t : RouteTarget) → of_rank (rank t) ≡ t
of_rank-rank knowledge = refl
of_rank-rank service = refl
of_rank-rank community = refl
of_rank-rank governance = refl
of_rank-rank modelops = refl
of_rank-rank clarify = refl

pub same_target→eq : (a b : RouteTarget) → same_target a b ≡ true → a ≡ b
same_target→eq a b h =
    sym (of_rank-rank a) ∙ (ap of_rank (==→eq (rank a) (rank b) h) ∙ of_rank-rank b)

abbrev of_agent_rank : ℕ → AgentCode
of_agent_rank zero = community_agent
of_agent_rank (suc zero) = governance_agent
of_agent_rank (suc (suc zero)) = knowledge_agent
of_agent_rank (suc (suc (suc zero))) = modelops_agent
of_agent_rank (suc (suc (suc (suc zero)))) = service_agent
of_agent_rank (suc (suc (suc (suc (suc n))))) = supervisor

of_agent_rank-agent_rank : (c : AgentCode) → of_agent_rank (agent_rank c) ≡ c
of_agent_rank-agent_rank supervisor = refl
of_agent_rank-agent_rank knowledge_agent = refl
of_agent_rank-agent_rank service_agent = refl
of_agent_rank-agent_rank community_agent = refl
of_agent_rank-agent_rank governance_agent = refl
of_agent_rank-agent_rank modelops_agent = refl

pub same_agent→eq : (a b : AgentCode) → same_agent a b ≡ true → a ≡ b
same_agent→eq a b h =
    sym (of_agent_rank-agent_rank a)
    ∙ (ap of_agent_rank (==→eq (agent_rank a) (agent_rank b) h) ∙ of_agent_rank-agent_rank b)
