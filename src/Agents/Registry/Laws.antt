-- ===== src/Agents/Registry/Laws.antt =====
-- At most one version of an agent is active, and a registered one is found.
use campus_pilots.Base.{
  ◌≤◌, Bool, true, false, ◌&&◌, some, List, [], ◌∷◌, ◌≡◌, refl, sym, ap, subst, ◌∙◌, inl, inr,
  arith, Bool-cases, Option-cases, any, filter, count_where, ==_refl, eq_iff, All,
}
use campus_pilots.Exec.{ok}
use campus_pilots.Exec.Keeps.{bind-Leads}
use campus_pilots.Agents.Contracts.{AgentCode, agent_rank}
use campus_pilots.Agents.Contracts.Codes.{same_agent→eq}
use campus_pilots.Agents.Registry.{
  AgentDefinition, AgentVersion, AgentRegistration, AgentRegistry, is_active, is_active_of,
  same_code, is_refused, added, registered, same_bool, same_definition, register, register_all,
  get_active,
}

-- Every agent has one active version at most.
abbrev pub IsSingle : AgentRegistry → Type 0
IsSingle g = (code : AgentCode) → count_where (is_active_of code) g.versions ≤ 1

none-count {ℓ} : {A : Type ℓ} (p : A → Bool) (xs : List A) → any p xs ≡ false → count_where p xs ≡ 0
none-count p [] h = refl
none-count p (x ∷ xs) h = ground (arith, none-count p xs)

count-active :
    (code : AgentCode) (v : AgentVersion) (vs : List AgentVersion)
    → (is_active v.status && any (is_active_of v.agent_code) vs) ≡ false
    → count_where (is_active_of code) vs ≤ 1
    → count_where (is_active_of code) (v ∷ vs) ≤ 1
count-active code v vs h k = elim (Bool-cases (is_active_of code v)) [
  | inl e ↦
      let same : v.agent_code ≡ code = same_agent→eq v.agent_code code (ground (arith, e)) in
      let free : any (is_active_of v.agent_code) vs ≡ false = ground (arith, e, h) in
      let rest : any (is_active_of code) vs ≡ false =
        subst (λ c. any (is_active_of c) vs ≡ false) same free in
      rw e (omega (arith, none-count (is_active_of code) vs rest))
  | inr e ↦ rw e (omega (arith, k))
]

register-IsSingle :
    (r : AgentRegistration) (g : AgentRegistry)
    → same_code r ≡ true
    → IsSingle g
    → IsSingle (register r g).1
unfolding register
register-IsSingle r g h single code = elim (Bool-cases (is_refused r g)) [
  | inl e ↦ rw e (single code)
  | inr e ↦
      let same : r.definition.code ≡ r.version.agent_code =
        same_agent→eq r.definition.code r.version.agent_code h in
      let free : (is_active r.version.status && any (is_active_of r.definition.code) g.versions)
          ≡ false =
        ground (arith, e) in
      rw e (
        count-active code r.version g.versions
          (subst (λ c. (is_active r.version.status && any (is_active_of c) g.versions) ≡ false) same
            free)
          (single code))
]

-- Whatever is registered, and whether or not a registration is refused on the way, no agent has two
-- active versions. The codes inside a registration agree, which its own validator checks.
pub register_all-IsSingle :
    (rs : List AgentRegistration) (g : AgentRegistry)
    → All (λ (r : AgentRegistration). same_code r ≡ true) rs
    → ((code : AgentCode) → count_where (is_active_of code) g.versions ≤ 1)
    → (code : AgentCode) → count_where (is_active_of code) (register_all rs g).1.versions ≤ 1
register_all-IsSingle [] g h single = single
register_all-IsSingle (r ∷ rs) g h single =
    bind-Leads IsSingle IsSingle IsSingle (register r) (λ _. register_all rs) (λ w k. k)
      (λ w k. register-IsSingle r w h.0 k) (λ _ w k. register_all-IsSingle rs w h.1 k) g single

same_bool→eq : (a b : Bool) → same_bool a b ≡ true → a ≡ b
same_bool→eq true b h = sym h
same_bool→eq false b h = ground arith

same_definition→eq : (a b : AgentDefinition) → same_definition a b ≡ true → a ≡ b
same_definition→eq a b h =
    let same_codes = same_agent→eq a.code b.code (ground (arith, h)) in
    let same_names = (eq_iff a.name b.name).0 (ground (arith, h)) in
    let same_texts = (eq_iff a.description b.description).0 (ground (arith, h)) in
    let same_flags = same_bool→eq a.enabled b.enabled (ground (arith, h)) in cc

registered-added :
    (r : AgentRegistration) (g : AgentRegistry)
    → is_refused r g ≡ false
    → registered (added r g) r.definition.code ≡ some r.definition
registered-added r g h = elim (Option-cases (registered g r.definition.code)) [
  | inl e ↦ rw e (rw (==_refl (agent_rank r.definition.code)) refl)
  | inr (d, e) ↦
      let same : d ≡ r.definition = same_definition→eq d r.definition (ground (arith, e, h)) in
      rw e (e ∙ ap some same)
]

filter-none {ℓ} : {A : Type ℓ} (p : A → Bool) (xs : List A) → any p xs ≡ false → filter p xs ≡ []
filter-none p [] h = refl
filter-none p (x ∷ xs) h = ground (arith, filter-none p xs)

-- An accepted registration of an active version of an enabled agent is the one that is found.
pub get_active-register :
    (r : AgentRegistration) (g : AgentRegistry)
    → same_code r ≡ true
    → is_active r.version.status ≡ true
    → r.definition.enabled ≡ true
    → (register r g).0 ≡ ok tt
    → get_active r.definition.code (register r g).1 ≡ ok r
unfolding register get_active
get_active-register r g same act on h = elim (Bool-cases (is_refused r g)) [
  | inl e ↦ (let k = rw e at h in cc)
  | inr e ↦
      let rest = filter-none (is_active_of r.definition.code) g.versions (ground (arith, e, act)) in
      let self : is_active_of r.definition.code r.version ≡ true = ground (arith, act, same) in
      rw e (rw (registered-added r g e, on, self, rest) refl)
]
