-- ===== src/Platform/Auth/Refresh.antt =====
-- `AuthService.refresh` and `logout`.
use campus_pilots.Base.{
  ℕ, String, not, Option, none, some, ◌∷◌, leb, map, is_none, is_some, if◌then◌else◌,
}
use mathlib.Core.Option
use campus_pilots.Errors.{invalid_refresh_token, refresh_token_reused, runtime_error}
use campus_pilots.Exec.{
  Result, ok, raised, Exec, pure, gets, modify, lift, raise_if, atomically, ◌>>=◌, ◌>>◌,
}
use campus_pilots.Platform.Audit.{record_success, record_failure}
use campus_pilots.Platform.Auth.{User, RefreshToken, RefreshResult, Tables, Externals, Call}
use campus_pilots.Platform.Auth.Store.{
  is_active, get_by_id, get_by_token_hash, mark_rotated, revoke_by_jti, revoke_all_for_user,
  issue_access, issue_refresh, stored_token,
}

module _ (x : Externals) where
  -- `_record_refresh_failure`
  abbrev pub log_failure : Call → String → Option ℕ → Tables → Tables
  log_failure call code user_id w = record w {
    audit =
        record_failure "auth.refresh" "user" (Option.map x.uuid_text user_id) call.request_id code
          user_id none w.audit;
  }

  abbrev pub refuse : Call → Option ℕ → Exec Tables (Result RefreshResult)
  refuse call user_id = do
    modify (log_failure call "INVALID_REFRESH_TOKEN" user_id)
    pure (raised invalid_refresh_token)

  abbrev pub revoke_family : Call → ℕ → Exec Tables (Unit {0})
  revoke_family call user_id =
      modify (λ w. record w { tokens = revoke_all_for_user user_id call.now w.tokens })

  -- The presented token was rotated before.
  abbrev pub refuse_reused : Call → RefreshToken → Exec Tables (Result RefreshResult)
  refuse_reused call t = do
    revoke_family call t.user_id
    modify (log_failure call "REFRESH_TOKEN_REUSED" (some t.user_id))
    pure (raised refresh_token_reused)

  abbrev pub refuse_user : Call → RefreshToken → Exec Tables (Result RefreshResult)
  refuse_user call t = do revoke_family call t.user_id; refuse call (some t.user_id)

  abbrev pub rotate_token : Call → RefreshToken → User → Exec Tables (Result RefreshResult)
  rotate_token call t u = do
    roles ← gets (λ w. w.roles u.id)
    permissions ← gets (λ w. w.permissions u.id)
    let access = issue_access x call u.id u.username (map (λ r. r.code) roles) permissions
    let issued = issue_refresh x call
    rotated ← λ w.
        let (done, tokens) = mark_rotated t.jti issued.jti call.now w.tokens in
        (ok done, record w { tokens = tokens })
    raise_if (not rotated) runtime_error
    modify (λ w. record w {
      tokens = stored_token u.id issued ∷ w.tokens;
      audit =
          record_success "auth.refresh" "user" (some (x.uuid_text u.id)) call.request_id (some u.id)
            (some u.username) w.audit;
    })
    pure (ok (record { access_token = access; refresh_token = issued }))

  -- `user is None or user.status != "active"`, or the rotation.
  abbrev pub refresh_for : Call → RefreshToken → Option User → Exec Tables (Result RefreshResult)
  refresh_for call t none = refuse_user call t
  refresh_for call t (some u) =
      if not (is_active u.status) then refuse_user call t else rotate_token call t u

  abbrev pub refresh_stored : Call → RefreshToken → Exec Tables (Result RefreshResult)
  refresh_stored call t =
      if is_some t.revoked_at
      then (if is_some t.replaced_by_jti
          then refuse_reused call t
          else refuse call (some t.user_id))
      else if leb t.expires_at call.now
      then refuse call (some t.user_id)
      else λ w. refresh_for call t (get_by_id t.user_id w.users) w

  abbrev pub refresh_found : Call → Option RefreshToken → Exec Tables (Result RefreshResult)
  refresh_found call none = refuse call none
  refresh_found call (some t) = refresh_stored call t

  unfoldable pub refresh : String → Call → Exec Tables RefreshResult
  unfolding get_by_id get_by_token_hash mark_rotated revoke_all_for_user
  refresh token call = do
    outcome ←
        atomically (λ w. refresh_found call (get_by_token_hash (x.hash_refresh token) w.tokens) w)
    lift outcome

  abbrev pub log_logout : Call → Option ℕ → Tables → Tables
  log_logout call user_id w = record w {
    audit =
        record_success "auth.logout" "user" (Option.map x.uuid_text user_id) call.request_id user_id
          none w.audit;
  }

  abbrev pub logout_found : Call → Option RefreshToken → Exec Tables (Unit {0})
  logout_found call none = modify (log_logout call none)
  logout_found call (some t) = do
    modify (λ w.
        if is_none t.revoked_at
        then record w { tokens = (revoke_by_jti t.jti call.now w.tokens).1 }
        else w)
    modify (log_logout call (some t.user_id))

  unfoldable pub logout : String → Call → Exec Tables (Unit {0})
  unfolding get_by_token_hash revoke_by_jti
  logout token call =
      atomically (λ w. logout_found call (get_by_token_hash (x.hash_refresh token) w.tokens) w)
