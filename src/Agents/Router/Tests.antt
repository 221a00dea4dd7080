-- ===== src/Agents/Router/Tests.antt =====
-- Routes of concrete texts, with texts compared as they are.
use Prim.Native.String.{count}
use campus_pilots.Base.{
  ℕ, ◌≤◌, ◌<◌, Bool, false, true, Option, none, some, [], ◌∷◌, ◌≡◌, ◌⊎◌, refl, str_eq,
}
use campus_pilots.Base.Text.{strip}
use campus_pilots.Errors.{invalid_agent_input}
use campus_pilots.Exec.{ok, raised}
use campus_pilots.Agents.Contracts.{RouteDecision, service, clarify, deepseek, same_target}
use campus_pilots.Agents.Router.{RouterService, clarification, route}
use campus_pilots.Agents.Router.Laws.{route-trusted}

abbrev answer : ℕ → RouteDecision
answer confidence = record {
  target_agent = service;
  confidence = confidence;
  source = deepseek;
  reason_code = "ROUTE_MODEL";
  model_version_id = none;
  candidate_agents = service ∷ [];
}

-- The remote model knows one text and the rules another.
abbrev router : ℕ → RouterService
router confidence = record {
  threshold = 8000;
  local_router = λ text. none;
  deepseek_router = λ text. if_known (str_eq text "lamp");
  casefold = λ text. text;
  is_in = str_eq;
}
  where
    if_known : Bool → Option RouteDecision
    if_known true = some (answer confidence)
    if_known false = none

unsure : route (router 7999) " lamp " ≡ ok clarification
unfolding route strip
unsure = refl

route-trusted_example :
    (((str_eq (strip " lamp ") "" ≡ true) ⊎ (4000 < count (strip " lamp ")))
      × (route (router 9000) " lamp " ≡ raised invalid_agent_input))
    ⊎ ((count (strip " lamp ") ≤ 4000)
        × (str_eq (strip " lamp ") "" ≡ false)
        × (d : RouteDecision) × (route (router 9000) " lamp " ≡ ok d)
        × ((d ≡ clarification)
            ⊎ ((same_target d.target_agent clarify ≡ false) × (8000 ≤ d.confidence))))
route-trusted_example = route-trusted (router 9000) " lamp "
