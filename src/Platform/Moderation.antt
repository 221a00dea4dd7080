-- ===== src/Platform/Moderation.antt =====
-- Content moderation: `SensitiveWordScanner` (backend/app/modules/platform/moderation_scan.py), the
-- rules of `SensitiveWordRepository`, and `ModerationService.submit_case` (moderation.py).
pub mod Scan
pub mod Case
mod Tests
use campus_pilots.Base.{ℕ, String, Bool, Option, List}

pub data ScanAction : Type 0 where
  allow mask review block : ScanAction

pub data RiskLevel : Type 0 where
  low medium high critical : RiskLevel

pub data MatchType : Type 0 where
  exact contains regex : MatchType

-- A row of the table `sensitive_words`.
pub record SensitiveWord : Type 0 where
  pub id : ℕ
  pub word : String
  pub match_type : MatchType
  pub action : ScanAction
  pub replacement : Option String
  pub scope : String
  pub enabled : Bool
  pub created_at : ℕ

-- The rule is named by its id.
pub record ScanHit : Type 0 where
  pub rule : ℕ
  pub action : ScanAction

pub record ScanResult : Type 0 where
  pub action : ScanAction
  pub risk_level : RiskLevel
  pub hits : List ScanHit
  pub policy_version : String
  pub sanitized_text : String

pub data CaseStatus : Type 0 where
  pending approved rejected escalated : CaseStatus

-- A row of the table `moderation_cases`.
pub record ModerationCase : Type 0 where
  pub id : ℕ
  pub target_module : String
  pub target_type : String
  pub target_id : ℕ
  pub content_excerpt : String
  pub risk_level : RiskLevel
  pub rule_hits : List ScanHit
  pub status : CaseStatus
  pub submitted_by : Option ℕ
  pub reviewer_id : Option ℕ
  pub decision_reason : Option String
  pub reviewed_at : Option ℕ
  pub version : ℕ
  pub created_at : ℕ
  pub updated_at : ℕ

-- Python's texts and regular expressions: `casefold`, `in`, `re.compile` (whether it succeeds),
-- `re.search` and `re.sub` without regard to case (none for the error of a bad template), and `re.escape`; and `str(uuid)`.
pub record Texts : Type 0 where
  pub casefold : String → String
  pub is_in : String → String → Bool
  pub compiles : String → Bool
  pub search : String → String → Bool
  pub sub : String → String → String → Option String
  pub escape : String → String
  pub uuid_text : ℕ → String

abbrev pub action_priority : ScanAction → ℕ
action_priority allow = 0
action_priority mask = 1
action_priority review = 2
action_priority block = 3

abbrev pub risk_priority : RiskLevel → ℕ
risk_priority low = 0
risk_priority medium = 1
risk_priority high = 2
risk_priority critical = 3

abbrev pub risk_by_action : ScanAction → RiskLevel
risk_by_action allow = low
risk_by_action mask = medium
risk_by_action review = high
risk_by_action block = critical
