-- ===== src/Platform/Audit.antt =====
-- backend/app/modules/platform/audit.py: the audit trail that every service writes in its own
-- transaction. The snapshots `before_data` and `after_data` are left out.
use campus_pilots.Base.{ℕ, String, Option, none, some, List, ◌∷◌}

pub data AuditResult : Type 0 where
  success failure : AuditResult

pub record AuditLog : Type 0 where
  pub action : String
  pub resource_type : String
  pub resource_id : Option String
  pub request_id : String
  pub result : AuditResult
  pub error_code : Option String
  pub actor_user_id : Option ℕ
  pub actor_username : Option String

-- Newest first.
abbrev pub record_success :
    String
    → String
    → Option String
    → String
    → Option ℕ
    → Option String
    → List AuditLog
    → List AuditLog
record_success action resource_type resource_id request_id user_id username log =
    record {
      action = action;
      resource_type = resource_type;
      resource_id = resource_id;
      request_id = request_id;
      result = success;
      error_code = none;
      actor_user_id = user_id;
      actor_username = username;
    }
    ∷ log

abbrev pub record_failure :
    String
    → String
    → Option String
    → String
    → String
    → Option ℕ
    → Option String
    → List AuditLog
    → List AuditLog
record_failure action resource_type resource_id request_id error_code user_id username log =
    record {
      action = action;
      resource_type = resource_type;
      resource_id = resource_id;
      request_id = request_id;
      result = failure;
      error_code = some error_code;
      actor_user_id = user_id;
      actor_username = username;
    }
    ∷ log
