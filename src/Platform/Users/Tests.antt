-- ===== src/Platform/Users/Tests.antt =====
-- Administrators and their roles.
use campus_pilots.Base.{ℕ, ◌≤◌, String, some, none, [], ◌∷◌, ◌≡◌, refl, arith, str_eq}
use campus_pilots.Errors.{last_super_admin}
use campus_pilots.Exec.{raised}
use campus_pilots.Platform.Auth.{active, disabled}
use campus_pilots.Platform.Users.{
  User, Tables, Changes, Admin, get_for_update, count_active_super_admins, update_user,
  replace_user_roles,
}
use campus_pilots.Platform.Users.LastAdmin.{update_user_keeps_admin}

abbrev user : ℕ → String → User
user n name = record {
  id = n;
  username = name;
  display_name = name;
  email = none;
  department = none;
  status = active;
  failed_login_count = 0;
  locked_until = none;
  version = 1;
  updated_at = 0;
  deleted_at = none;
}

abbrev ada : Admin
ada = record { user_id = 1; username = "ada" }

-- Both users are active, and only the first one is a super administrator.
abbrev tables : Tables
tables = record {
  users = user 1 "ada" ∷ user 2 "bob" ∷ [];
  roles = record { id = 8; code = "student" } ∷ record { id = 9; code = "super_admin" } ∷ [];
  user_roles =
      record { user_id = 1; role_id = 9; assigned_by = some 1 }
      ∷ record { user_id = 2; role_id = 8; assigned_by = some 1 }
      ∷ [];
  refresh_tokens = [];
  audit = [];
}

abbrev disabling : Changes
disabling = record { display_name = none; email = none; department = none; status = some disabled }

abbrev text_of : ℕ → String
text_of n = "uuid"

last_is_refused :
    (update_user str_eq text_of ada 1 1 disabling "request" 50 tables).0 ≡ raised last_super_admin
unfolding update_user get_for_update count_active_super_admins
last_is_refused = refl

-- The change of the roles has no such guard: the last super administrator becomes a student.
roles_are_replaced :
    (count_active_super_admins tables ≡ 1)
    × (count_active_super_admins
          (replace_user_roles str_eq text_of ada 1 (8 ∷ []) 1 "request" 50 tables).1
        ≡ 0)
unfolding replace_user_roles get_for_update count_active_super_admins
roles_are_replaced = (refl, refl)

tables_has_admin : 1 ≤ count_active_super_admins tables
unfolding count_active_super_admins
tables_has_admin = omega arith

update_user_keeps_admin_example :
    1
    ≤ count_active_super_admins (update_user str_eq text_of ada 2 1 disabling "request" 50 tables).1
update_user_keeps_admin_example =
    update_user_keeps_admin str_eq text_of ada 2 1 disabling "request" 50 tables (omega arith)
      tables_has_admin
