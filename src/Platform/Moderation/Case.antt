-- ===== src/Platform/Moderation/Case.antt =====
-- `ModerationService.submit_case` (backend/app/modules/platform/moderation.py).
use Prim.Native.String.{[] as empty, ◌∷◌ as cons}
use campus_pilots.Base.{
  ℕ, zero, suc, String, Bool, true, false, not, Option, none, some, List, [], ◌∷◌, str_eq, any,
  if◌then◌else◌,
}
use campus_pilots.Errors.{invalid_moderation_target}
use campus_pilots.Exec.{ok, raised, Exec}
use campus_pilots.Platform.Audit.{AuditLog, record_success}
use campus_pilots.Platform.Moderation.{
  ScanAction, review, block, ScanResult, ModerationCase, pending, Texts,
}

abbrev pub valid_target_modules : List String
valid_target_modules = "ai_knowledge" ∷ "campus_service" ∷ "community" ∷ "agent_platform" ∷ []

-- `result.action in {"review", "block"}`
abbrev pub needs_case : ScanAction → Bool
needs_case review = true
needs_case block = true
needs_case _ = false

-- The arguments of the call, with the fresh UUID, the clock and the actor's name.
pub record Submission : Type 0 where
  pub target_module : String
  pub target_type : String
  pub target_id : ℕ
  pub content : String
  pub submitted_by : ℕ
  pub actor_username : String
  pub request_id : String
  pub case_id : ℕ
  pub now : ℕ

-- `content[:n]`
pub take_text : ℕ → String → String
take_text zero s = empty
take_text (suc n) empty = empty
take_text (suc n) (cons c s) = cons c (take_text n s)

abbrev pub new_case : ScanResult → Submission → ModerationCase
new_case r a = record {
  id = a.case_id;
  target_module = a.target_module;
  target_type = a.target_type;
  target_id = a.target_id;
  content_excerpt = take_text 500 a.content;
  risk_level = r.risk_level;
  rule_hits = r.hits;
  status = pending;
  submitted_by = some a.submitted_by;
  reviewer_id = none;
  decision_reason = none;
  reviewed_at = none;
  version = 1;
  created_at = a.now;
  updated_at = a.now;
}

module _ (x : Texts) where
  abbrev pub log_case : Submission → List AuditLog → List AuditLog
  log_case a log =
      record_success "moderation.case.submit" "moderation_case" (some (x.uuid_text a.case_id))
        a.request_id (some a.submitted_by) (some a.actor_username) log

  unfoldable pub submit_case :
      ScanResult → Submission → Exec (List ModerationCase × List AuditLog) (Option ModerationCase)
  submit_case r a (cases, log) =
      if not (any (str_eq a.target_module) valid_target_modules)
      then (raised invalid_moderation_target, (cases, log))
      else if needs_case r.action
      then (ok (some (new_case r a)), (new_case r a ∷ cases, log_case a log))
      else (ok none, (cases, log))
