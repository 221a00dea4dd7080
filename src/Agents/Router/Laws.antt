-- ===== src/Agents/Router/Laws.antt =====
-- What a route is trusted for.
use Prim.Native.String.{count}
use campus_pilots.Base.{
  ℕ, ◌≤◌, ◌<◌, String, Bool, true, false, not, ◌&&◌, ◌||◌, Option, none, some, List, [], ◌∷◌, ◌≡◌,
  refl, ◌⊎◌, inl, inr, arith, Bool-cases, leb, ltb, leb→le, ltb→lt, sym, str_eq, length, any,
  filter,
}
use campus_pilots.Base.Sort.{sort-length}
use campus_pilots.Base.Text.{strip}
use mathlib.Core.Option.{some-injective}
use campus_pilots.Errors.{invalid_agent_input}
use campus_pilots.Exec.{ok, raised}
use campus_pilots.Agents.Contracts.{
  RouteTarget, clarify, RouteSource, local_model, deepseek, RouteDecision, route_decision,
  same_target, sorted_targets, distinct, rank, normalized,
}
use campus_pilots.Agents.Router.{
  RouterService, same_source, domain_order, keywords, clarification, rule_decision, take_three,
  route_by_rule, expected, route_with_port, without_candidates, confident, by_rule, route_locally,
  route_remotely, route,
}

-- A decision that is acted upon: it asks for a clarification, or it names an agent and is
-- confident enough.
abbrev pub IsTrusted : ℕ → RouteDecision → Type 0
IsTrusted threshold d =
    (d ≡ clarification)
    ⊎ ((same_target d.target_agent clarify ≡ false) × (threshold ≤ d.confidence))

expected-agent :
    (source : RouteSource) (o : Option RouteDecision) (d : RouteDecision)
    → expected source o ≡ some d
    → same_target d.target_agent clarify ≡ false
expected-agent source none d h = cc
expected-agent source (some e) d h =
    elim (Bool-cases (not (same_source e.source source) || same_target e.target_agent clarify)) [
      | inl bad ↦ (let k = rw bad at h in cc)
      | inr good ↦
          let same : e ≡ d = some-injective e d (rw good at h) in
          rw (sym same) (ground (arith, good))
    ]

confident-IsTrusted :
    (threshold : ℕ) (d answer : RouteDecision)
    → same_target answer.target_agent clarify ≡ false
    → answer.confidence ≡ d.confidence
    → IsTrusted threshold (confident threshold d answer)
confident-IsTrusted threshold d answer h e = elim (Bool-cases (leb threshold d.confidence)) [
  | inl yes_enough ↦
      rw yes_enough (inr (h, omega (arith, leb→le threshold d.confidence yes_enough, e)))
  | inr less ↦ rw less (inl refl)
]

by_rule-IsTrusted : (threshold : ℕ) (d : RouteDecision) → IsTrusted threshold (by_rule threshold d)
by_rule-IsTrusted threshold d =
    elim (Bool-cases (not (same_target d.target_agent clarify) && leb threshold d.confidence)) [
      | inl e ↦ rw e (inr (ground (arith, e), ground (arith, e)))
      | inr e ↦ rw e (inl refl)
    ]

distinct-length :
    (same : RouteTarget → RouteTarget → Bool) (ts : List RouteTarget)
    → length (distinct same ts) ≤ length ts
distinct-length same [] = omega arith
distinct-length same (t ∷ ts) = ground (arith, distinct-length same ts)

sorted_targets-length : (ts : List RouteTarget) → length (sorted_targets ts) ≤ length ts
sorted_targets-length ts = omega (
  arith,
  sort-length (λ (a b : RouteTarget). ltb (rank b) (rank a)) (distinct same_target ts),
  distinct-length same_target ts,
)

take_three-length : (ts : List RouteTarget) → length (take_three ts) ≤ 3
take_three-length [] = omega arith
take_three-length (a ∷ []) = omega arith
take_three-length (a ∷ b ∷ []) = omega arith
take_three-length (a ∷ b ∷ c ∷ ts) = omega arith

route_decision-total :
    (d : RouteDecision)
    → d.confidence ≤ 10000
    → length d.candidate_agents ≤ 3
    → (e : RouteDecision) × (route_decision d ≡ ok e)
unfolding route_decision
route_decision-total d c n =
    (normalized d, ground (arith, c, n, sorted_targets-length d.candidate_agents))

rule_decision-total : (ts : List RouteTarget) → (d : RouteDecision) × (rule_decision ts ≡ ok d)
rule_decision-total [] = route_decision-total _ (omega arith) (omega arith)
rule_decision-total (t ∷ []) = route_decision-total _ (omega arith) (omega arith)
rule_decision-total (t ∷ u ∷ ts) =
    route_decision-total _ (omega arith) (take_three-length (t ∷ u ∷ ts))

route_by_rule-total :
    (x : RouterService) (text : String) → (d : RouteDecision) × (route_by_rule x text ≡ ok d)
unfolding route_by_rule
route_by_rule-total x text =
    rule_decision-total
      (filter (λ t. any (λ keyword. x.is_in keyword (x.casefold text)) (keywords t)) domain_order)

route_locally-IsTrusted :
    (x : RouterService) (text : String) (o : Option RouteDecision)
    → ((d : RouteDecision) → o ≡ some d → same_target d.target_agent clarify ≡ false)
    → (d : RouteDecision) × (route_locally x text o ≡ ok d) × IsTrusted x.threshold d
route_locally-IsTrusted x text none h =
    let (d, e) = route_by_rule-total x text in
    (by_rule x.threshold d, rw e refl, by_rule-IsTrusted x.threshold d)
route_locally-IsTrusted x text (some d) h =
    (confident x.threshold d d, refl, confident-IsTrusted x.threshold d d (h d refl) refl)

route_remotely-IsTrusted :
    (x : RouterService) (text : String) (o : Option RouteDecision)
    → ((d : RouteDecision) → o ≡ some d → same_target d.target_agent clarify ≡ false)
    → (d : RouteDecision) × (route_remotely x text o ≡ ok d) × IsTrusted x.threshold d
route_remotely-IsTrusted x text none h =
    route_locally-IsTrusted x text (route_with_port x.local_router text local_model)
      (expected-agent local_model (x.local_router text))
route_remotely-IsTrusted x text (some d) h = (
  confident x.threshold d (without_candidates d),
  refl,
  confident-IsTrusted x.threshold d (without_candidates d) (h d refl) refl,
)

-- A text that is blank or has more than 4000 characters after stripping is refused. For every other
-- text the router returns, whatever the two models give; it asks for a clarification, or it names
-- an agent with a confidence that reaches the threshold.
pub route-trusted :
    (x : RouterService) (text : String)
    → (((str_eq (strip text) "" ≡ true) ⊎ (4000 < count (strip text)))
        × (route x text ≡ raised invalid_agent_input))
      ⊎ ((count (strip text) ≤ 4000)
          × (str_eq (strip text) "" ≡ false)
          × (d : RouteDecision) × (route x text ≡ ok d)
          × ((d ≡ clarification)
              ⊎ ((same_target d.target_agent clarify ≡ false) × (x.threshold ≤ d.confidence))))
unfolding route
route-trusted x text = elim (Bool-cases (str_eq (strip text) "")) [
  | inl e ↦ inl (inl e, rw e refl)
  | inr e ↦ elim (Bool-cases (ltb 4000 (count (strip text)))) [
    | inl long ↦ inl (inr (ltb→lt 4000 (count (strip text)) long), rw (e, long) refl)
    | inr fits ↦
        let text' = strip text in
        let (d, eq, trusted) =
          route_remotely-IsTrusted x text' (route_with_port x.deepseek_router text' deepseek)
            (expected-agent deepseek (x.deepseek_router text')) in
        inr (ground (arith, fits), e, d, rw (e, fits) eq, trusted)
  ]
]
