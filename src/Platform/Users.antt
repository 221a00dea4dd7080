-- ===== src/Platform/Users.antt =====
-- The administration of users: `UserUpdateService.update_user` (backend/app/modules/platform/
-- user_update.py) and `UserRoleService.replace_user_roles` (user_roles.py), with their queries of
-- `UserRepository` (repositories.py). How CITEXT compares two e-mails is a parameter.
pub mod LastAdmin
mod Tests
use campus_pilots.Base.{
  ℕ, ◌+◌, String, Bool, true, false, not, ◌&&◌, ◌||◌, Option, none, some, List, [], ◌∷◌, ◌==◌, leb,
  any, find, filter, map, length, update_where, count_where, is_none, if◌then◌else◌, str_eq,
}
use mathlib.Core.List.{◌++◌}
use campus_pilots.Errors.{
  user_not_found, role_not_found, duplicate_resource, resource_version_conflict,
  status_change_not_allowed, last_super_admin,
}
use campus_pilots.Exec.{Exec, ok, pure, gets, require, raise_if, modify, atomically, ◌>>=◌, ◌>>◌}
use campus_pilots.Platform.Audit.{AuditLog, record_success}
use campus_pilots.Platform.Auth.{UserStatus, active, disabled, locked, RefreshToken}
use campus_pilots.Platform.Auth.Store.{revoke_all_for_user}

pub record User : Type 0 where
  pub id : ℕ
  pub username : String
  pub display_name : String
  pub email : Option String
  pub department : Option String
  pub status : UserStatus
  pub failed_login_count : ℕ
  pub locked_until : Option ℕ
  pub version : ℕ
  pub updated_at : ℕ
  pub deleted_at : Option ℕ

pub record Role : Type 0 where
  pub id : ℕ
  pub code : String

pub record UserRole : Type 0 where
  pub user_id : ℕ
  pub role_id : ℕ
  pub assigned_by : Option ℕ

pub record Tables : Type 0 where
  pub users : List User
  pub roles : List Role
  pub user_roles : List UserRole
  pub refresh_tokens : List RefreshToken
  pub audit : List AuditLog

-- The mapping `changes`: `none` for a key that is missing.
pub record Changes : Type 0 where
  pub display_name : Option String
  pub email : Option (Option String)
  pub department : Option (Option String)
  pub status : Option UserStatus

pub record Admin : Type 0 where
  pub user_id : ℕ
  pub username : String

abbrev pub is_active : UserStatus → Bool
is_active active = true
is_active _ = false

abbrev pub is_disabled : UserStatus → Bool
is_disabled disabled = true
is_disabled _ = false

abbrev pub sets_locked : Option UserStatus → Bool
sets_locked (some locked) = true
sets_locked _ = false

abbrev pub sets_disabled : Option UserStatus → Bool
sets_disabled (some disabled) = true
sets_disabled _ = false

abbrev pub is_user : ℕ → User → Bool
is_user user_id u = u.id == user_id && is_none u.deleted_at

unfoldable pub get_for_update : ℕ → Tables → Option User
get_for_update user_id w = find (is_user user_id) w.users

-- Some link gives the user the role `super_admin`.
abbrev pub is_super_admin : Tables → ℕ → Bool
is_super_admin w user_id =
    any
      (λ (l : UserRole).
        l.user_id == user_id
        && any (λ (r : Role). r.id == l.role_id && str_eq r.code "super_admin") w.roles)
      w.user_roles

-- The joined rows, which are the users: a user has a role once, and the code of a role is unique.
unfoldable pub count_active_super_admins : Tables → ℕ
count_active_super_admins w =
    count_where
      (λ (u : User). is_active u.status && (is_none u.deleted_at && is_super_admin w u.id)) w.users

abbrev pub has_email : (String → String → Bool) → String → Option String → Bool
has_email same email none = false
has_email same email (some e) = same e email

-- Another user that is not deleted has the e-mail, where one is set.
abbrev pub email_taken : (String → String → Bool) → ℕ → Option (Option String) → List User → Bool
email_taken same user_id (some (some email)) users =
    any
      (λ (u : User).
        has_email same email u.email && (is_none u.deleted_at && not (u.id == user_id)))
      users
email_taken same user_id _ users = false

abbrev pub changed {ℓ} : {A : Type ℓ} → Option A → A → A
changed none old = old
changed (some new) old = new

-- The columns that a status brings with it.
abbrev pub unlocked : Option UserStatus → User → User
unlocked (some active) u = record u { failed_login_count = 0; locked_until = none }
unlocked _ u = u

abbrev pub updated : Changes → ℕ → User → User
updated c now u =
    let v = unlocked c.status u in
    record v {
      display_name = changed c.display_name u.display_name;
      email = changed c.email u.email;
      department = changed c.department u.department;
      status = changed c.status u.status;
      version = u.version + 1;
      updated_at = now;
    }

-- The rows of `update_if_version` and of `bump_version_if_match`.
abbrev pub is_at : ℕ → ℕ → User → Bool
is_at user_id version u = is_user user_id u && u.version == version

abbrev pub drop_tokens : Option UserStatus → ℕ → ℕ → List RefreshToken → List RefreshToken
unfolding revoke_all_for_user
drop_tokens (some disabled) user_id now tokens = revoke_all_for_user user_id now tokens
drop_tokens _ user_id now tokens = tokens

abbrev pub audited : String → String → Admin → ℕ → (ℕ → String) → Tables → Tables
audited action request_id actor user_id uuid_text w = record w {
  audit =
      record_success action "user" (some (uuid_text user_id)) request_id (some actor.user_id)
        (some actor.username) w.audit;
}

module _ (same_email : String → String → Bool) (uuid_text : ℕ → String) where
  unfoldable pub update_user : Admin → ℕ → ℕ → Changes → String → ℕ → Exec Tables User
  unfolding get_for_update count_active_super_admins drop_tokens
  update_user actor user_id expected_version c request_id now = atomically (do
    row ← gets (get_for_update user_id)
    u ← require row user_not_found
    raise_if (not (u.version == expected_version)) resource_version_conflict
    raise_if (sets_locked c.status) status_change_not_allowed
    taken ← gets (λ w. email_taken same_email u.id c.email w.users)
    raise_if taken duplicate_resource
    last ← gets (λ w. is_super_admin w u.id && leb (count_active_super_admins w) 1)
    raise_if ((sets_disabled c.status && not (is_disabled u.status)) && last) last_super_admin
    modify (λ w. record w { refresh_tokens = drop_tokens c.status u.id now w.refresh_tokens })
    rows ← gets (λ w. count_where (is_at u.id expected_version) w.users)
    raise_if (not (rows == 1)) resource_version_conflict
    modify (λ w. record w {
      users = update_where (is_at u.id expected_version) (updated c now) w.users;
    })
    modify (audited "user.update" request_id actor u.id uuid_text)
    pure (updated c now u))

  -- The role ids are distinct in a request; the answer lists the roles by code, here the rows.
  unfoldable pub replace_user_roles :
      Admin → ℕ → List ℕ → ℕ → String → ℕ → Exec Tables (User × List Role)
  unfolding get_for_update
  replace_user_roles actor user_id role_ids expected_version request_id now = atomically (do
    row ← gets (get_for_update user_id)
    u ← require row user_not_found
    raise_if (not (u.version == expected_version)) resource_version_conflict
    roles ← gets (λ w. filter (λ (r : Role). any (λ id. id == r.id) role_ids) w.roles)
    raise_if (not (length roles == length role_ids)) role_not_found
    rows ← gets (λ w. count_where (is_at u.id expected_version) w.users)
    raise_if (not (rows == 1)) resource_version_conflict
    modify (λ w.
        let kept = filter (λ (l : UserRole). not (l.user_id == u.id)) w.user_roles in
        let new =
          map
            (λ (r : Role). record {
              user_id = u.id;
              role_id = r.id;
              assigned_by = some actor.user_id;
            })
            roles in
        record w {
          users =
              update_where (is_at u.id expected_version)
                (λ u. record u { version = u.version + 1; updated_at = now }) w.users;
          user_roles = new ++ kept;
        })
    modify (audited "user.roles.replace" request_id actor u.id uuid_text)
    pure (record u { version = expected_version + 1; updated_at = now }, roles))
