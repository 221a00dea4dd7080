-- ===== src/Platform/Auth/Tests.antt =====
-- Logins and refreshes on concrete tables.
use campus_pilots.Base.{ℕ, ◌+◌, String, none, some, List, [], ◌∷◌, ◌≡◌, ◌≢◌, refl, arith, str_eq}
use campus_pilots.Errors.{account_locked, refresh_token_reused}
use campus_pilots.Exec.{Result, ok, raised}
use campus_pilots.Platform.Auth.{
  active, User, RefreshToken, integer, AuthLoginPolicy, Tables, Externals, Call, RefreshResult,
  minutes,
}
use campus_pilots.Platform.Auth.Store.{
  get_by_username, get_by_token_hash, get_login_policy, max_failed_logins_key, lock_minutes_key,
}
use campus_pilots.Platform.Auth.Login.{login, retry_after}
use campus_pilots.Platform.Auth.Refresh.{refresh, logout}
use campus_pilots.Platform.Auth.Lockout.{Holds, attempts, lockout}
use campus_pilots.Platform.Auth.Rotation.{open_sessions, Rotates, refresh-Rotates, reuse_detected}
use campus_pilots.Platform.Auth.Logout.{logout_final}

-- Texts compared as they are, and passwords and tokens that hash to themselves.
abbrev externals : Externals
externals = record {
  same_username = str_eq;
  verify_password = str_eq;
  hash_refresh = λ s. s;
  encode_access = λ u name roles permissions from until jti. "token";
  uuid_text = λ n. "uuid";
  access_token_minutes = 15;
  refresh_token_days = 7;
}

abbrev ada : User
ada = record {
  id = 1;
  username = "ada";
  password_hash = "right";
  status = active;
  failed_login_count = 0;
  locked_until = none;
  last_login_at = none;
  version = 1;
  created_at = 0;
  deleted_at = none;
}

abbrev session : RefreshToken
session = record {
  jti = 5;
  user_id = 1;
  token_hash = "old";
  expires_at = 1000;
  revoked_at = none;
  replaced_by_jti = none;
}

-- Two wrong passwords lock the account for a minute.
abbrev tables : Tables
tables = record {
  users = ada ∷ [];
  tokens = session ∷ [];
  roles = λ u. [];
  permissions = λ u. [];
  configs =
      record { key = max_failed_logins_key; value = integer 2; value_type = "integer" }
      ∷ record { key = lock_minutes_key; value = integer 1; value_type = "integer" }
      ∷ [];
  audit = [];
}

abbrev call_at : ℕ → Call
call_at n = record {
  request_id = "request";
  now = n;
  access_jti = 7;
  refresh_jti = 8;
  raw_token = "new";
}

abbrev policy : AuthLoginPolicy
policy = record { max_failed_logins = 2; lock_minutes = 1 }

abbrev one_wrong : List (String × Call)
one_wrong = ("wrong", call_at 10) ∷ []

abbrev locked_tables : Tables
locked_tables =
    (login externals "ada" "worse" (call_at 20)
      (attempts externals "ada" policy one_wrong tables)).1

ada-Holds : Holds externals "ada" policy ada tables
unfolding get_by_username get_login_policy
ada-Holds = record { found = refl; enabled = refl; present = refl; configured = refl }

lockout_example :
    ((login externals "ada" "right" (call_at 30) locked_tables).0
      ≡ raised (account_locked (retry_after 30 (some (20 + minutes 1)))))
    × ((login externals "ada" "right" (call_at 30) locked_tables).1.users ≡ locked_tables.users)
    × ((login externals "ada" "right" (call_at 30) locked_tables).1.tokens ≡ locked_tables.tokens)
lockout_example =
    lockout externals "ada" policy one_wrong "worse" (call_at 20) "right" (call_at 30) ada tables
      ada-Holds refl refl refl (refl, tt) refl (omega arith)

abbrev refreshed : Tables
refreshed = (refresh externals "old" (call_at 40) tables).1

abbrev result_of : Result RefreshResult → RefreshResult → RefreshResult
result_of (ok r) other = r
result_of (raised e) other = other

abbrev no_result : RefreshResult
no_result = record {
  access_token = record { token = ""; expires_at = 0; jti = 0 };
  refresh_token = record { token = ""; jti = 0; token_hash = ""; expires_at = 0 };
}

abbrev result : RefreshResult
result = result_of (refresh externals "old" (call_at 40) tables).0 no_result

succeeds : (refresh externals "old" (call_at 40) tables).0 ≡ ok result
unfolding refresh
succeeds = refl

refresh-Rotates_example :
    (t : RefreshToken) × (u : User) × Rotates externals "old" (call_at 40) tables t u
refresh-Rotates_example = refresh-Rotates externals "old" (call_at 40) tables {r = result} succeeds

reuse_detected_example :
    (t : RefreshToken) × (get_by_token_hash "old" tables.tokens ≡ some t)
    × ((refresh externals "old" (call_at 50) refreshed).0 ≡ raised refresh_token_reused)
    × (open_sessions t.user_id (refresh externals "old" (call_at 50) refreshed).1.tokens ≡ 0)
reuse_detected_example =
    reuse_detected externals "old" (call_at 40) (call_at 50) tables {r = result} refl succeeds

logout_final_example :
    (refresh externals "old" (call_at 50) (logout externals "old" (call_at 45) tables).1).0
    ≢ ok result
logout_final_example = logout_final externals "old" (call_at 45) (call_at 50) tables result
