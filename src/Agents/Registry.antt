-- ===== src/Agents/Registry.antt =====
-- backend/app/modules/agent_platform/orchestration/agent_registry.py: the registered agents and
-- their versions. A version number is its three parts.
pub mod Laws
use campus_pilots.Base.{
  ℕ, String, Bool, true, false, not, ◌&&◌, ◌||◌, Option, none, some, List, [], ◌∷◌, ltb, ◌==◌, any,
  filter, find, str_eq, if◌then◌else◌,
}
use campus_pilots.Errors.{agent_not_found, agent_disabled, duplicate_agent_registration}
use campus_pilots.Exec.{Result, ok, raised, Exec, ◌>>◌}
use campus_pilots.Agents.Contracts.{AgentCode, same_agent}

pub data VersionStatus : Type 0 where
  draft active inactive : VersionStatus

pub record AgentDefinition : Type 0 where
  pub code : AgentCode
  pub name : String
  pub description : String
  pub enabled : Bool

pub record AgentVersion : Type 0 where
  pub agent_code : AgentCode
  pub version : ℕ × ℕ × ℕ
  pub tool_allowlist : List String
  pub status : VersionStatus

-- The two codes are the same, which pydantic checks when a registration is built.
pub record AgentRegistration : Type 0 where
  pub definition : AgentDefinition
  pub version : AgentVersion

abbrev pub same_code : AgentRegistration → Bool
same_code r = same_agent r.definition.code r.version.agent_code

pub record AgentRegistry : Type 0 where
  pub definitions : List AgentDefinition
  pub versions : List AgentVersion

abbrev pub is_active : VersionStatus → Bool
is_active active = true
is_active _ = false

abbrev pub same_version : ℕ × ℕ × ℕ → ℕ × ℕ × ℕ → Bool
same_version (a, b, c) (x, y, z) = a == x && (b == y && c == z)

-- Whether the first version is the greater one.
abbrev version_after : ℕ × ℕ × ℕ → ℕ × ℕ × ℕ → Bool
version_after (a, b, c) (x, y, z) = ltb x a || (a == x && (ltb y b || (b == y && ltb z c)))

abbrev pub same_bool : Bool → Bool → Bool
same_bool true b = b
same_bool false b = not b

abbrev pub same_definition : AgentDefinition → AgentDefinition → Bool
same_definition a b =
    same_agent a.code b.code
    && (str_eq a.name b.name
        && (str_eq a.description b.description && same_bool a.enabled b.enabled))

abbrev pub conflicts : Option AgentDefinition → AgentDefinition → Bool
conflicts none d = false
conflicts (some existing) d = not (same_definition existing d)

abbrev pub is_active_of : AgentCode → AgentVersion → Bool
is_active_of code v = same_agent v.agent_code code && is_active v.status

-- `self._definitions[code] = definition`, where an existing entry is the same definition.
abbrev pub put_definition :
    Option AgentDefinition → AgentDefinition → List AgentDefinition → List AgentDefinition
put_definition none d definitions = d ∷ definitions
put_definition (some existing) d definitions = definitions

abbrev pub registered : AgentRegistry → AgentCode → Option AgentDefinition
registered g code = find (λ d. same_agent d.code code) g.definitions

abbrev pub is_refused : AgentRegistration → AgentRegistry → Bool
is_refused r g =
    let d = r.definition in
    let v = r.version in
    any (λ w. same_agent w.agent_code d.code && same_version w.version v.version) g.versions
    || (conflicts (registered g d.code) d
        || (is_active v.status && any (is_active_of d.code) g.versions))

abbrev pub added : AgentRegistration → AgentRegistry → AgentRegistry
added r g = record {
  definitions = put_definition (registered g r.definition.code) r.definition g.definitions;
  versions = r.version ∷ g.versions;
}

unfoldable pub register : AgentRegistration → Exec AgentRegistry (Unit {0})
register r g =
    if is_refused r g then (raised duplicate_agent_registration, g) else (ok tt, added r g)

-- `max(versions, key=…)`
abbrev pub latest : AgentVersion → List AgentVersion → AgentVersion
latest v [] = v
latest v (w ∷ ws) = latest (if version_after w.version v.version then w else v) ws

abbrev pub choose : AgentDefinition → List AgentVersion → Result AgentRegistration
choose d [] = raised agent_disabled
choose d (v ∷ vs) = ok (record { definition = d; version = latest v vs })

abbrev pub get_enabled :
    AgentCode → Option AgentDefinition → List AgentVersion → Result AgentRegistration
get_enabled code none versions = raised agent_not_found
get_enabled code (some d) versions =
    if d.enabled then choose d (filter (is_active_of code) versions) else raised agent_disabled

unfoldable pub get_active : AgentCode → AgentRegistry → Result AgentRegistration
get_active code g = get_enabled code (registered g code) g.versions

-- `AgentRegistry(registrations)`: the first refused registration ends the constructor.
abbrev pub register_all : List AgentRegistration → Exec AgentRegistry (Unit {0})
register_all [] g = (ok tt, g)
register_all (r ∷ rs) g = (register r >> register_all rs) g
