-- ===== src/Platform/Auth/Lockout.antt =====
-- Wrong passwords lock an account, and a locked account admits nobody.
use campus_pilots.Base.{
  ℕ, ◌+◌, ◌<◌, String, true, false, none, some, List, [], ◌∷◌, ◌≡◌, refl, arith, length, ap, ◌∙◌,
  All, find-update_where, update_where, is_none, ==_refl,
}
use campus_pilots.Errors.{invalid_credentials, account_locked}
use campus_pilots.Exec.{Result, ok, raised}
use campus_pilots.Platform.Auth.{
  User, AuthLoginPolicy, LoginResult, Tables, Externals, Call, minutes,
}
use campus_pilots.Platform.Auth.Store.{
  is_disabled, get_by_username, get_login_policy, fail_login, can_log_in,
}
use campus_pilots.Platform.Auth.Login.{locked_at, retry_after, login}

module _ (x : Externals) (name : String) (policy : AuthLoginPolicy) where
  -- The account `u` is known by the name, enabled, and its policy is configured.
  pub record Holds (u : User) (w : Tables) : Type 0 where
    pub found : get_by_username x name w.users ≡ some u
    pub enabled : is_disabled u.status ≡ false
    pub present : is_none u.deleted_at ≡ true
    pub configured : get_login_policy w.configs ≡ ok policy

  abbrev pub failed : User → Call → User
  failed u call = fail_login policy.max_failed_logins (call.now + minutes policy.lock_minutes) u

  -- One login with a wrong password while the account is open.
  module _ (u : User) (password : String) (call : Call) (w : Tables) where
    abbrev tried : Result LoginResult × Tables
    tried = login x name password call w

    wrong_tables :
        Holds u w
        → locked_at call.now u.locked_until ≡ false
        → x.verify_password u.password_hash password ≡ false
        → (tried.1.users
            ≡ update_where
                (can_log_in u.id)
                (fail_login policy.max_failed_logins (call.now + minutes policy.lock_minutes))
                w.users)
          × (tried.1.configs ≡ w.configs)
          × (tried.0 ≡ raised invalid_credentials)
    unfolding login
    wrong_tables h clear bad = ground (arith, h.found, h.enabled, h.configured, clear, bad)

    wrong_found :
        Holds u w
        → get_by_username x name (
            update_where
              (can_log_in u.id)
              (fail_login policy.max_failed_logins (call.now + minutes policy.lock_minutes))
              w.users)
          ≡ some (failed u call)
    unfolding get_by_username
    wrong_found h =
        find-update_where _ (can_log_in u.id)
          (fail_login policy.max_failed_logins (call.now + minutes policy.lock_minutes))
          (λ y. ground arith) w.users h.found (ground (arith, h.present, h.enabled, ==_refl u.id))

    wrong-Holds :
        Holds u w
        → locked_at call.now u.locked_until ≡ false
        → x.verify_password u.password_hash password ≡ false
        → Holds (failed u call) tried.1
    wrong-Holds h clear bad =
        let (users, configs, refused) = wrong_tables h clear bad in
        record {
          found = rw users (wrong_found h);
          enabled = ground (arith, h.enabled);
          present = ground (arith, h.present);
          configured = rw configs h.configured;
        }

  -- Logins under the name, one after another.
  pub attempts : List (String × Call) → Tables → Tables
  attempts [] w = w
  attempts ((password, call) ∷ rest) w = attempts rest (login x name password call w).1

  abbrev pub AllWrong : String → List (String × Call) → Type 0
  AllWrong hash tries = All (λ (t : String × Call). x.verify_password hash t.0 ≡ false) tries

  failed_below :
      (u : User) (call : Call)
      → u.failed_login_count + 1 < policy.max_failed_logins
      → failed u call ≡ record u { failed_login_count = u.failed_login_count + 1 }
  failed_below u call h = ground arith

  -- Fewer wrong passwords than the limit: they are counted, and the account stays open.
  counted :
      (tries : List (String × Call)) (u : User) (w : Tables)
      → Holds u w
      → u.locked_until ≡ none
      → u.failed_login_count + length tries < policy.max_failed_logins
      → AllWrong u.password_hash tries
      → (u' : User) × Holds u' (attempts tries w)
        × (u'.locked_until ≡ none)
        × (u'.failed_login_count ≡ u.failed_login_count + length tries)
        × (u'.password_hash ≡ u.password_hash)
  unfolding attempts
  counted [] u w h clear few wrong = (u, h, clear, omega arith, refl)
  counted ((password, call) ∷ rest) u w h clear few wrong =
      let e = failed_below u call (omega arith) in
      let (u', h', clear', count, same) =
        counted rest (failed u call) (login x name password call w).1
          (wrong-Holds u password call w h (ground (arith, clear)) wrong.0) (rw e clear)
          (rw e (omega arith)) (rw e wrong.1) in
      (
        u',
        h',
        clear',
        omega (arith, count, ap (λ (v : User). v.failed_login_count) e),
        same ∙ ap (λ (v : User). v.password_hash) e,
      )

  -- The wrong password that reaches the limit locks the account for the time of the policy.
  locked_now :
      (u : User) (call : Call)
      → u.failed_login_count + 1 ≡ policy.max_failed_logins
      → (failed u call).locked_until ≡ some (call.now + minutes policy.lock_minutes)
  locked_now u call e = ground arith

  -- A locked account refuses every password, and neither accounts nor tokens change.
  refused_while_locked :
      (u : User) (until : ℕ) (password : String) (call : Call) (w : Tables)
      → Holds u w
      → u.locked_until ≡ some until
      → call.now < until
      → ((login x name password call w).0
          ≡ raised (account_locked (retry_after call.now (some until))))
        × ((login x name password call w).1.users ≡ w.users)
        × ((login x name password call w).1.tokens ≡ w.tokens)
  unfolding login
  refused_while_locked u until password call w h l early =
      ground (arith, h.found, h.enabled, l, early)

  -- An account that is found under the name, enabled and not deleted, with no lock and no failed
  -- login, is locked by as many wrong passwords in a row as the configured policy allows, the last
  -- of them at `call`. A login under the name that comes next and before the lock ends is refused,
  -- with the right password too, and neither accounts nor tokens change.
  pub lockout :
      (tries : List (String × Call)) (password : String) (call : Call) (password' : String)
      (call' : Call) (u : User) (w : Tables)
      → Holds u w
      → u.locked_until ≡ none
      → u.failed_login_count ≡ 0
      → length tries + 1 ≡ policy.max_failed_logins
      → AllWrong u.password_hash tries
      → x.verify_password u.password_hash password ≡ false
      → call'.now < call.now + minutes policy.lock_minutes
      → let w' = (login x name password call (attempts tries w)).1 in
        ((login x name password' call' w').0
          ≡ raised (
              account_locked
                (retry_after call'.now (some (call.now + minutes policy.lock_minutes)))))
        × ((login x name password' call' w').1.users ≡ w'.users)
        × ((login x name password' call' w').1.tokens ≡ w'.tokens)
  lockout tries password call password' call' u w h clear none_yet all_used wrong last early =
      let (u', h', clear', count, same) = counted tries u w h clear (omega arith) wrong in
      refused_while_locked (failed u' call) (call.now + minutes policy.lock_minutes) password' call'
        (login x name password call (attempts tries w)).1
        (wrong-Holds u' password call (attempts tries w) h' (ground (arith, clear')) (rw same last))
        (locked_now u' call (omega arith)) early
