-- ===== src/Platform/Auth.antt =====
-- backend/app/modules/platform/auth.py: accounts, refresh tokens and what the service takes from
-- outside. Ids are UUIDs and times are microseconds; the columns `created_ip` and `user_agent` and
-- the profile fields of a user are left out.
pub mod Store
pub mod Login
pub mod Refresh
pub mod Lockout
pub mod Rotation
pub mod Logout
mod Tests
use campus_pilots.Base.{ℕ, ◌*◌, String, Bool, Option, List}
use campus_pilots.Platform.Audit.{AuditLog}

pub data UserStatus : Type 0 where
  active disabled locked : UserStatus

pub record User : Type 0 where
  pub id : ℕ
  pub username : String
  pub password_hash : String
  pub status : UserStatus
  pub failed_login_count : ℕ
  pub locked_until : Option ℕ
  pub last_login_at : Option ℕ
  pub version : ℕ
  pub created_at : ℕ
  pub deleted_at : Option ℕ

pub record RefreshToken : Type 0 where
  pub jti : ℕ
  pub user_id : ℕ
  pub token_hash : String
  pub expires_at : ℕ
  pub revoked_at : Option ℕ
  pub replaced_by_jti : Option ℕ

pub record AuthenticatedRole : Type 0 where
  pub role_id : ℕ
  pub code : String
  pub name : String

pub record AuthenticatedUser : Type 0 where
  pub user_id : ℕ
  pub username : String
  pub status : UserStatus
  pub roles : List AuthenticatedRole
  pub permissions : List String
  pub last_login_at : Option ℕ
  pub created_at : ℕ
  pub version : ℕ

pub record IssuedAccessToken : Type 0 where
  pub token : String
  pub expires_at : ℕ
  pub jti : ℕ

pub record IssuedRefreshToken : Type 0 where
  pub token : String
  pub jti : ℕ
  pub token_hash : String
  pub expires_at : ℕ

pub record LoginResult : Type 0 where
  pub user : AuthenticatedUser
  pub access_token : IssuedAccessToken
  pub refresh_token : IssuedRefreshToken

pub record RefreshResult : Type 0 where
  pub access_token : IssuedAccessToken
  pub refresh_token : IssuedRefreshToken

-- A value of `app_configs`: an integer is not negative, or below zero.
pub data ConfigValue : Type 0 where
  boolean : Bool → ConfigValue
  integer : ℕ → ConfigValue
  below_zero : ConfigValue
  other_value : ConfigValue

pub record AppConfig : Type 0 where
  pub key : String
  pub value : ConfigValue
  pub value_type : String

pub record AuthLoginPolicy : Type 0 where
  pub max_failed_logins : ℕ
  pub lock_minutes : ℕ

-- The tables; roles and permissions are read by the user's id.
pub record Tables : Type 0 where
  pub users : List User
  pub tokens : List RefreshToken
  pub roles : ℕ → List AuthenticatedRole
  pub permissions : ℕ → List String
  pub configs : List AppConfig
  pub audit : List AuditLog

-- What the code calls but does not define: the comparison of `CITEXT`, Argon2, SHA-256, the JWT
-- encoder, and the text of a UUID; and the settings of the token service.
pub record Externals : Type 0 where
  pub same_username : String → String → Bool
  pub verify_password : String → String → Bool
  pub hash_refresh : String → String
  pub encode_access : ℕ → String → List String → List String → ℕ → ℕ → ℕ → String
  pub uuid_text : ℕ → String
  pub access_token_minutes : ℕ
  pub refresh_token_days : ℕ

-- The request's id, the clock, and what `uuid4` and `token_urlsafe` draw.
pub record Call : Type 0 where
  pub request_id : String
  pub now : ℕ
  pub access_jti : ℕ
  pub refresh_jti : ℕ
  pub raw_token : String

abbrev pub minutes : ℕ → ℕ
minutes n = n * 60 * 1000000

abbrev pub days : ℕ → ℕ
days n = n * 24 * 3600 * 1000000
