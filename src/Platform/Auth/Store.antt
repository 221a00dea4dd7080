-- ===== src/Platform/Auth/Store.antt =====
-- The queries of `UserRepository`, `UserAuthRepository`, `AuthPolicyRepository` and
-- `RefreshTokenRepository` (backend/app/modules/platform/repositories.py), and the token service
-- (tokens.py).
use campus_pilots.Base.{
  ℕ, ◌+◌, String, Bool, true, false, not, ◌&&◌, Option, none, some, List, [], ◌∷◌, ◌==◌, leb,
  str_eq, if◌then◌else◌, is_none, find, update_where, count_where,
}
use campus_pilots.Errors.{invalid_auth_policy}
use campus_pilots.Exec.{Result, ok, raised}
use campus_pilots.Platform.Auth.{
  UserStatus, active, disabled, locked, User, RefreshToken, integer, AppConfig, AuthLoginPolicy,
  IssuedAccessToken, IssuedRefreshToken, Externals, Call, minutes, days,
}

abbrev pub is_disabled : UserStatus → Bool
is_disabled disabled = true
is_disabled _ = false

abbrev pub is_active : UserStatus → Bool
is_active active = true
is_active _ = false

unfoldable pub get_by_username : Externals → String → List User → Option User
get_by_username x username users =
    find (λ u. x.same_username u.username username && is_none u.deleted_at) users

unfoldable pub get_by_id : ℕ → List User → Option User
get_by_id id users = find (λ u. u.id == id && is_none u.deleted_at) users

-- The `WHERE` of the two login updates.
abbrev pub can_log_in : ℕ → User → Bool
can_log_in id u = u.id == id && (is_none u.deleted_at && not (is_disabled u.status))

abbrev pub fail_login : ℕ → ℕ → User → User
fail_login max_failed_logins until u =
    let count = u.failed_login_count + 1 in
    if leb max_failed_logins count
    then record u { failed_login_count = count; locked_until = some until; status = locked }
    else record u { failed_login_count = count }

unfoldable pub record_failed_login : ℕ → ℕ → ℕ → List User → List User
record_failed_login id max_failed_logins until users =
    update_where (can_log_in id) (fail_login max_failed_logins until) users

abbrev pub reset_login : ℕ → User → User
reset_login now u = record u {
  failed_login_count = 0;
  locked_until = none;
  status = active;
  last_login_at = some now;
}

unfoldable pub record_successful_login : ℕ → ℕ → List User → List User
record_successful_login id now users = update_where (can_log_in id) (reset_login now) users

-- The two values of the policy, as far as they are read.
pub record PolicyValues : Type 0 where
  pub max_failed_logins : Option ℕ
  pub lock_minutes : Option ℕ

-- A row counts if its type is `integer` and its value a positive integer.
abbrev pub positive_integer : AppConfig → Option ℕ
positive_integer r = elim r.value [
  | integer n ↦ if str_eq r.value_type "integer" && leb 1 n then some n else none
  | _ ↦ none
]

abbrev pub add_max : Option ℕ → PolicyValues → Option PolicyValues
add_max (some n) v =
    if is_none v.max_failed_logins then some (record v { max_failed_logins = some n }) else none
add_max none v = none

abbrev pub add_minutes : Option ℕ → PolicyValues → Option PolicyValues
add_minutes (some n) v =
    if is_none v.lock_minutes then some (record v { lock_minutes = some n }) else none
add_minutes none v = none

abbrev pub max_failed_logins_key : String
max_failed_logins_key = "auth.max_failed_logins"

abbrev pub lock_minutes_key : String
lock_minutes_key = "auth.lock_minutes"

-- One turn of the loop over the rows; the query leaves rows of other keys out.
abbrev pub read_row : AppConfig → PolicyValues → Option PolicyValues
read_row r v =
    if str_eq r.key max_failed_logins_key
    then add_max (positive_integer r) v
    else if str_eq r.key lock_minutes_key
    then add_minutes (positive_integer r) v
    else some v

pub read_rows : List AppConfig → PolicyValues → Option PolicyValues
read_rows [] v = some v
read_rows (r ∷ rows) v = elim (read_row r v) [ none ↦ none | some v' ↦ read_rows rows v' ]

-- Both keys must have been read.
abbrev pub both_values : Option ℕ → Option ℕ → Result AuthLoginPolicy
both_values (some n) (some m) = ok (record { max_failed_logins = n; lock_minutes = m })
both_values _ _ = raised invalid_auth_policy

abbrev pub complete_policy : Option PolicyValues → Result AuthLoginPolicy
complete_policy none = raised invalid_auth_policy
complete_policy (some v) = both_values v.max_failed_logins v.lock_minutes

unfoldable pub get_login_policy : List AppConfig → Result AuthLoginPolicy
unfolding read_rows
get_login_policy rows =
    complete_policy (read_rows rows (record { max_failed_logins = none; lock_minutes = none }))

unfoldable pub get_by_token_hash : String → List RefreshToken → Option RefreshToken
get_by_token_hash h tokens = find (λ t. str_eq t.token_hash h) tokens

-- An active token is one that is not revoked.
abbrev pub is_unrevoked : ℕ → RefreshToken → Bool
is_unrevoked jti t = t.jti == jti && is_none t.revoked_at

abbrev pub owned_unrevoked : ℕ → RefreshToken → Bool
owned_unrevoked user_id t = t.user_id == user_id && is_none t.revoked_at

abbrev pub rotate : ℕ → ℕ → RefreshToken → RefreshToken
rotate replacement now t = record t { revoked_at = some now; replaced_by_jti = some replacement }

abbrev pub revoke : ℕ → RefreshToken → RefreshToken
revoke now t = record t { revoked_at = some now }

unfoldable pub mark_rotated : ℕ → ℕ → ℕ → List RefreshToken → Bool × List RefreshToken
mark_rotated jti replacement now tokens = (
  count_where (is_unrevoked jti) tokens == 1,
  update_where (is_unrevoked jti) (rotate replacement now) tokens,
)

unfoldable pub revoke_by_jti : ℕ → ℕ → List RefreshToken → Bool × List RefreshToken
revoke_by_jti jti now tokens = (
  count_where (is_unrevoked jti) tokens == 1,
  update_where (is_unrevoked jti) (revoke now) tokens,
)

unfoldable pub revoke_all_for_user : ℕ → ℕ → List RefreshToken → List RefreshToken
revoke_all_for_user user_id now tokens = update_where (owned_unrevoked user_id) (revoke now) tokens

abbrev pub issue_access :
    Externals → Call → ℕ → String → List String → List String → IssuedAccessToken
issue_access x call user_id username roles permissions =
    let expires_at = call.now + minutes x.access_token_minutes in
    record {
      token =
          x.encode_access user_id username roles permissions call.now expires_at call.access_jti;
      expires_at = expires_at;
      jti = call.access_jti;
    }

abbrev pub issue_refresh : Externals → Call → IssuedRefreshToken
issue_refresh x call = record {
  token = call.raw_token;
  jti = call.refresh_jti;
  token_hash = x.hash_refresh call.raw_token;
  expires_at = call.now + days x.refresh_token_days;
}

-- The row of a refresh token that was just issued.
abbrev pub stored_token : ℕ → IssuedRefreshToken → RefreshToken
stored_token user_id t = record {
  jti = t.jti;
  user_id = user_id;
  token_hash = t.token_hash;
  expires_at = t.expires_at;
  revoked_at = none;
  replaced_by_jti = none;
}
