-- ===== src/Platform/Auth/Login.antt =====
-- `AuthService.login` and `get_current_user`. A refused login is recorded and committed before the
-- error is raised, so the transaction returns the refusal as a value.
use campus_pilots.Base.{
  ℕ, ◌+◌, ◌-◌, ◌/◌, String, Bool, false, not, ◌||◌, Option, none, some, ◌∷◌, ltb, max, map, str_eq,
  if◌then◌else◌,
}
use campus_pilots.Errors.{
  invalid_credentials, account_disabled, account_locked, authentication_required,
}
use campus_pilots.Exec.{
  Result, ok, raised, Exec, pure, gets, modify, require, lift, raise_if, atomically, ◌>>=◌, ◌>>◌,
}
use campus_pilots.Platform.Audit.{record_success, record_failure}
use campus_pilots.Platform.Auth.{
  active, User, AuthenticatedUser, LoginResult, Tables, Externals, Call, minutes,
}
use campus_pilots.Platform.Auth.Store.{
  is_disabled, is_active, get_by_username, get_by_id, record_failed_login, record_successful_login,
  get_login_policy, issue_access, issue_refresh, stored_token,
}

-- `user.locked_until is not None and user.locked_until > now`
abbrev pub locked_at : ℕ → Option ℕ → Bool
locked_at now none = false
locked_at now (some until) = ltb now until

-- `max(1, ceil((locked_until - now).total_seconds()))`
abbrev pub retry_after : ℕ → Option ℕ → ℕ
retry_after now none = 1
retry_after now (some until) = max 1 ((until - now + 999999) / 1000000)

abbrev pub authenticated : Tables → User → AuthenticatedUser
authenticated w u = record {
  user_id = u.id;
  username = u.username;
  status = u.status;
  roles = w.roles u.id;
  permissions = w.permissions u.id;
  last_login_at = u.last_login_at;
  created_at = u.created_at;
  version = u.version;
}

module _ (x : Externals) where
  -- `_record_login_failure`
  abbrev pub log_failure : Call → String → String → Option ℕ → Option String → Tables → Tables
  log_failure call username code user_id actor w = record w {
    audit =
        record_failure "auth.login" "user" (some username) call.request_id code user_id actor
          w.audit;
  }

  abbrev pub refuse_unknown : Call → String → Exec Tables (Result LoginResult)
  refuse_unknown call username = do
    modify (log_failure call username "INVALID_CREDENTIALS" none none)
    pure (raised invalid_credentials)

  abbrev pub refuse_disabled : Call → User → Exec Tables (Result LoginResult)
  refuse_disabled call u = do
    modify (log_failure call u.username "ACCOUNT_DISABLED" (some u.id) (some u.username))
    pure (raised account_disabled)

  abbrev pub refuse_locked : Call → User → Exec Tables (Result LoginResult)
  refuse_locked call u = do
    modify (log_failure call u.username "ACCOUNT_LOCKED" (some u.id) (some u.username))
    pure (raised (account_locked (retry_after call.now u.locked_until)))

  abbrev pub refuse_password : Call → User → Exec Tables (Result LoginResult)
  refuse_password call u = do
    policy ← λ w. (get_login_policy w.configs, w)
    modify (λ w. record w {
      users =
          record_failed_login u.id policy.max_failed_logins (call.now + minutes policy.lock_minutes)
            w.users;
    })
    modify (log_failure call u.username "INVALID_CREDENTIALS" (some u.id) (some u.username))
    pure (raised invalid_credentials)

  abbrev pub admit : Call → User → Exec Tables (Result LoginResult)
  admit call u = do
    modify (λ w. record w { users = record_successful_login u.id call.now w.users })
    roles ← gets (λ w. w.roles u.id)
    permissions ← gets (λ w. w.permissions u.id)
    let access = issue_access x call u.id u.username (map (λ r. r.code) roles) permissions
    let refresh = issue_refresh x call
    modify (λ w. record w {
      tokens = stored_token u.id refresh ∷ w.tokens;
      audit =
          record_success "auth.login" "user" (some (x.uuid_text u.id)) call.request_id (some u.id)
            (some u.username) w.audit;
    })
    pure (
        ok (record {
          user = record {
            user_id = u.id;
            username = u.username;
            status = active;
            roles = roles;
            permissions = permissions;
            last_login_at = some call.now;
            created_at = u.created_at;
            version = u.version;
          };
          access_token = access;
          refresh_token = refresh;
        }))

  -- The branches for a known user, in the order of the code.
  abbrev pub login_user : Call → String → User → Exec Tables (Result LoginResult)
  login_user call password u =
      if is_disabled u.status
      then refuse_disabled call u
      else if locked_at call.now u.locked_until
      then refuse_locked call u
      else if not (x.verify_password u.password_hash password)
      then refuse_password call u
      else admit call u

  abbrev pub login_found : Call → String → String → Option User → Exec Tables (Result LoginResult)
  login_found call username password none = refuse_unknown call username
  login_found call username password (some u) = login_user call password u

  unfoldable pub login : String → String → Call → Exec Tables LoginResult
  unfolding get_by_username record_failed_login record_successful_login get_login_policy
  login username password call = do
    outcome ←
        atomically (λ w. login_found call username password (get_by_username x username w.users) w)
    lift outcome

-- The claims of an access token that the service reads.
pub record AccessClaims : Type 0 where
  pub user_id : ℕ
  pub username : String

unfoldable pub get_current_user : AccessClaims → Exec Tables AuthenticatedUser
unfolding get_by_id
get_current_user claims = do
  users ← gets (λ w. w.users)
  u ← require (get_by_id claims.user_id users) authentication_required
  raise_if (not (is_active u.status) || not (str_eq u.username claims.username))
      authentication_required
  gets (λ w. authenticated w u)
