-- ===== src/Errors.antt =====
-- backend/app/core/errors.py and the subclasses of `AppError` that the modelled services raise.
use campus_pilots.Base.{ℕ}

-- One constructor for each exception class; the last five are the plain Python exceptions
-- `re.error`, `RuntimeError`, `ValueError`, `KeyError` and SQLAlchemy's `IntegrityError`.
pub data AppError : Type 0 where
  idempotency_conflict permission_denied resource_version_conflict : AppError
  invalid_credentials account_disabled invalid_refresh_token refresh_token_reused : AppError
  account_locked : ℕ → AppError
  authentication_required invalid_auth_policy : AppError
  campus_not_found work_order_not_found work_order_illegal_transition : AppError
  work_order_already_rated work_order_not_completed work_order_number_exhausted : AppError
  work_order_approval_invalid electricity_forbidden : AppError
  post_not_found community_content_pending_review moderation_target_conflict : AppError
  event_registration_busy event_not_found event_registration_closed event_registration_not_found :
      AppError
  event_capacity_full event_capacity_invalid event_state_invalid event_time_invalid : AppError
  lost_found_item_not_found lost_found_claim_not_found lost_found_claim_invalid : AppError
  lost_found_claim_conflict lost_found_claim_state_invalid : AppError
  moderation_case_not_found moderation_case_already_decided moderation_handler_missing : AppError
  agent_run_state_conflict agent_run_not_found agent_loop_detected tool_approval_invalid : AppError
  duplicate_agent_registration invalid_runtime_checkpoint : AppError
  invalid_agent_input agent_max_steps_exceeded agent_not_found agent_disabled : AppError
  rate_limited : ℕ → AppError
  invalid_sensitive_word_rule invalid_moderation_target community_resource_version_conflict :
      AppError
  user_not_found role_not_found duplicate_resource status_change_not_allowed last_super_admin :
      AppError
  re_error runtime_error value_error key_error integrity_error : AppError
