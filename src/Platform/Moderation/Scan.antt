-- ===== src/Platform/Moderation/Scan.antt =====
-- `SensitiveWordScanner.scan`, with the query `list_enabled_for_scope`, and `combine_scan_results`
-- (backend/app/modules/community/posts.py). Texts of UUIDs are in the order of the UUIDs.
pub mod Verdict
use Prim.Native.Nat.{Ordering}
use Prim.Native.String.{compare, ◌++◌ as join}
use campus_pilots.Base.{
  ℕ, String, Bool, true, false, not, ◌&&◌, ◌||◌, Option, none, some, List, [], ◌∷◌, ltb, ◌==◌,
  str_eq, if◌then◌else◌, filter, map, ◌++◌,
}
use campus_pilots.Base.Sort.{sort}
use campus_pilots.Errors.{invalid_sensitive_word_rule, re_error}
use campus_pilots.Exec.{Result, ok, raised}
use campus_pilots.Platform.Moderation.{
  ScanAction, allow, mask, review, block, RiskLevel, low, MatchType, exact, contains, regex,
  SensitiveWord, ScanHit, ScanResult, Texts, action_priority, risk_priority, risk_by_action,
}

abbrev pub policy_version : String
policy_version = "m4-sensitive-v1"

-- `ORDER BY created_at, id`
abbrev pub created_later : SensitiveWord → SensitiveWord → Bool
created_later a b = ltb b.created_at a.created_at || a.created_at == b.created_at && ltb b.id a.id

abbrev pub applies_in : String → SensitiveWord → Bool
applies_in scope w = w.enabled && (str_eq w.scope scope || str_eq w.scope "all")

unfoldable pub list_enabled_for_scope : String → List SensitiveWord → List SensitiveWord
list_enabled_for_scope scope words = sort created_later (filter (applies_in scope) words)

-- The sort key `(_ACTION_PRIORITY[action], str(rule.id))`.
abbrev pub ranks_later : SensitiveWord → SensitiveWord → Bool
ranks_later a b =
    ltb (action_priority b.action) (action_priority a.action)
    || action_priority a.action == action_priority b.action && ltb b.id a.id

abbrev pub is_regex : MatchType → Bool
is_regex regex = true
is_regex _ = false

abbrev pub is_mask : ScanAction → Bool
is_mask mask = true
is_mask _ = false

-- `rule.replacement or "***"`
abbrev pub replacement_of : Option String → String
replacement_of none = "***"
replacement_of (some r) = if str_eq r "" then "***" else r

-- `max(…, key=…, default="allow")`: the first of the largest.
abbrev pub best_action : List ScanAction → ScanAction
best_action [] = allow
best_action (a ∷ rest) =
    let best = best_action rest in
    if ltb (action_priority a) (action_priority best) then best else a

abbrev pub hit_of : SensitiveWord → ScanHit
hit_of r = record { rule = r.id; action = r.action }

-- The variables of the loop: what is matched so far, in order, and the masked text.
pub record Progress : Type 0 where
  pub matched : List SensitiveWord
  pub sanitized : String

module _ (x : Texts) where
  abbrev pub is_match : MatchType → String → String → Bool
  is_match exact word source = str_eq (x.casefold source) (x.casefold word)
  is_match contains word source = x.is_in (x.casefold word) (x.casefold source)
  is_match regex word source = x.search word source

  abbrev pub pattern_of : MatchType → String → String
  pattern_of regex word = word
  pattern_of _ word = x.escape word

  -- `re.sub`, which raises `re.error` on a bad template.
  abbrev pub substituted : Option String → Result String
  substituted none = raised re_error
  substituted (some s) = ok s

  abbrev pub masked : SensitiveWord → String → Result String
  masked rule sanitized =
      if is_mask rule.action
      then substituted
          (x.sub (pattern_of rule.match_type rule.word) (replacement_of rule.replacement) sanitized)
      else ok sanitized

  abbrev pub is_invalid : SensitiveWord → Bool
  is_invalid rule = is_regex rule.match_type && not (x.compiles rule.word)

  -- What a turn of the loop makes of the masked text.
  abbrev pub next_text : Bool → SensitiveWord → String → Result String
  next_text false rule sanitized = ok sanitized
  next_text true rule sanitized = masked rule sanitized

  abbrev pub with_match : Bool → SensitiveWord → Result Progress → Result Progress
  with_match true rule (ok p) = ok (record p { matched = rule ∷ p.matched })
  with_match false rule (ok p) = ok p
  with_match _ rule (raised e) = raised e

  abbrev pub matches : String → SensitiveWord → Bool
  matches source rule = is_match rule.match_type rule.word source

  -- The loop over the rules; the rules that match are returned in the order of the loop.
  unfoldable pub scan_rules : String → List SensitiveWord → String → Result Progress
  scan_rules source [] sanitized = ok (record { matched = []; sanitized = sanitized })
  scan_rules source (rule ∷ rules) sanitized =
      if is_invalid rule
      then raised invalid_sensitive_word_rule
      else elim (next_text (matches source rule) rule sanitized) [
        | raised e ↦ raised e
        | ok text ↦ with_match (matches source rule) rule (scan_rules source rules text)
      ]

  abbrev pub verdict : String → Progress → ScanResult
  verdict text p =
      let matched = sort ranks_later p.matched in
      let action = best_action (map (λ r. r.action) matched) in
      record {
        action = action;
        risk_level = risk_by_action action;
        hits = map hit_of matched;
        policy_version = policy_version;
        sanitized_text = if is_mask action then p.sanitized else text;
      }

  abbrev pub finished : String → Result Progress → Result ScanResult
  finished text (raised e) = raised e
  finished text (ok p) = ok (verdict text p)

  unfoldable pub scan : String → String → List SensitiveWord → Result ScanResult
  unfolding list_enabled_for_scope scan_rules
  scan scope text words = finished text (scan_rules text (list_enabled_for_scope scope words) text)

abbrev pub max_action : ScanAction → ScanAction → ScanAction
max_action a b = if ltb (action_priority a) (action_priority b) then b else a

abbrev pub max_risk : RiskLevel → RiskLevel → RiskLevel
max_risk a b = if ltb (risk_priority a) (risk_priority b) then b else a

-- `"+".join(sorted({…}))` of two versions.
abbrev pub joined_versions : String → String → String
joined_versions a b = elim (compare a b) [
  | Ordering.lt ↦ join a (join "+" b)
  | Ordering.eq ↦ a
  | Ordering.gt ↦ join b (join "+" a)
]

-- `combine_scan_results` of the two results that the services hand it.
unfoldable pub combine_scan_results : ScanResult → ScanResult → ScanResult
combine_scan_results a b = record {
  action = max_action a.action b.action;
  risk_level = max_risk a.risk_level b.risk_level;
  hits = a.hits ++ b.hits;
  policy_version = joined_versions a.policy_version b.policy_version;
  sanitized_text = "";
}
