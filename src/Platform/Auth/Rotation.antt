-- ===== src/Platform/Auth/Rotation.antt =====
-- A refresh token is good once: the rotation replaces it, and its reuse ends all sessions of the
-- user.
use campus_pilots.Base.{
  ℕ, ◌<◌, String, true, false, none, some, List, [], ◌∷◌, ◌≡◌, refl, arith, str_eq,
  find-update_where, update_where, count_where, is_none, is_some, ==_refl, inl, inr, Option-cases,
}
use campus_pilots.Errors.{refresh_token_reused}
use campus_pilots.Exec.{ok, raised}
use campus_pilots.Platform.Auth.{User, RefreshToken, RefreshResult, Tables, Externals, Call}
use campus_pilots.Platform.Auth.Store.{
  is_active, get_by_id, get_by_token_hash, is_unrevoked, owned_unrevoked, rotate, revoke,
  stored_token, issue_refresh,
}
use campus_pilots.Platform.Auth.Refresh.{refresh}

-- How many sessions of the user are open.
abbrev pub open_sessions : ℕ → List RefreshToken → ℕ
open_sessions user_id tokens = count_where (owned_unrevoked user_id) tokens

revoked-none :
    (user_id now : ℕ) (tokens : List RefreshToken)
    → open_sessions user_id (update_where (owned_unrevoked user_id) (revoke now) tokens) ≡ 0
revoked-none user_id now [] = refl
revoked-none user_id now (t ∷ ts) = ground (arith, revoked-none user_id now ts)

module _ (x : Externals) where
  -- A rotated token that is shown again is refused, and no session of its user stays open.
  reused :
      (token : String) (call : Call) (t : RefreshToken) (w : Tables)
      → get_by_token_hash (x.hash_refresh token) w.tokens ≡ some t
      → is_some t.revoked_at ≡ true
      → is_some t.replaced_by_jti ≡ true
      → ((refresh x token call w).0 ≡ raised refresh_token_reused)
        × (open_sessions t.user_id (refresh x token call w).1.tokens ≡ 0)
  unfolding refresh
  reused token call t w f r p = ground (arith, f, r, p, revoked-none t.user_id call.now w.tokens)

  -- What a refresh that succeeds has found and written.
  pub record Rotates (token : String) (call : Call) (w : Tables) (t : RefreshToken) (u : User)
      : Type 0 where
    pub found : get_by_token_hash (x.hash_refresh token) w.tokens ≡ some t
    pub unrevoked : is_none t.revoked_at ≡ true
    pub unexpired : call.now < t.expires_at
    pub user : get_by_id t.user_id w.users ≡ some u
    pub active : is_active u.status ≡ true
    pub written :
        (refresh x token call w).1.tokens
        ≡ stored_token u.id (issue_refresh x call)
          ∷ update_where (is_unrevoked t.jti) (rotate call.refresh_jti call.now) w.tokens

  no_token :
      (token : String) (call : Call) (w : Tables) {r : RefreshResult}
      → get_by_token_hash (x.hash_refresh token) w.tokens ≡ none
      → (refresh x token call w).0 ≡ ok r
      → ⊥
  unfolding refresh
  no_token token call w q h = ground (arith, q, h)

  no_user :
      (token : String) (call : Call) (w : Tables) (t : RefreshToken) {r : RefreshResult}
      → get_by_token_hash (x.hash_refresh token) w.tokens ≡ some t
      → get_by_id t.user_id w.users ≡ none
      → (refresh x token call w).0 ≡ ok r
      → ⊥
  unfolding refresh
  no_user token call w t q n h = ground (arith, q, n, h)

  both :
      (token : String) (call : Call) (w : Tables) (t : RefreshToken) (u : User) {r : RefreshResult}
      → get_by_token_hash (x.hash_refresh token) w.tokens ≡ some t
      → get_by_id t.user_id w.users ≡ some u
      → (refresh x token call w).0 ≡ ok r
      → Rotates token call w t u
  unfolding refresh
  both token call w t u q n h = record {
    found = q;
    unrevoked = ground (arith, q, n, h);
    unexpired = ground (arith, q, n, h);
    user = n;
    active = ground (arith, q, n, h);
    written = ground (arith, q, n, h);
  }

  -- A refresh that succeeds was given a token that is stored, not revoked and not expired, of a user
  -- who is active; it revokes that token in favour of a new one.
  pub refresh-Rotates :
      (token : String) (call : Call) (w : Tables) {r : RefreshResult}
      → (refresh x token call w).0 ≡ ok r
      → (t : RefreshToken) × (u : User) × Rotates token call w t u
  refresh-Rotates token call w h =
      elim (Option-cases (get_by_token_hash (x.hash_refresh token) w.tokens)) [
        | inl q ↦ absurd (no_token token call w q h)
        | inr (t, q) ↦ elim (Option-cases (get_by_id t.user_id w.users)) [
          | inl n ↦ absurd (no_user token call w t q n h)
          | inr (u, n) ↦ (t, u, both token call w t u q n h)
        ]
      ]

  -- What the old token's row is after the rotation.
  rotated_found :
      (token : String) (call : Call) (w : Tables) (t : RefreshToken) (u : User)
      → str_eq (x.hash_refresh call.raw_token) (x.hash_refresh token) ≡ false
      → Rotates token call w t u
      → get_by_token_hash (x.hash_refresh token) (refresh x token call w).1.tokens
        ≡ some (rotate call.refresh_jti call.now t)
  unfolding get_by_token_hash
  rotated_found token call w t u fresh h =
      rw (h.written, fresh)
        (find-update_where _ (is_unrevoked t.jti) (rotate call.refresh_jti call.now) (λ y. refl)
          w.tokens h.found (ground (arith, ==_refl t.jti, h.unrevoked)))

  -- After a refresh has succeeded, with a new token that hashes differently, the old token is
  -- refused as reused when it is shown next, and then no session of its user stays open, the new
  -- token's included.
  pub reuse_detected :
      (token : String) (call call' : Call) (w : Tables) {r : RefreshResult}
      → str_eq (x.hash_refresh call.raw_token) (x.hash_refresh token) ≡ false
      → (refresh x token call w).0 ≡ ok r
      → let w' = (refresh x token call w).1 in
        (t : RefreshToken) × (get_by_token_hash (x.hash_refresh token) w.tokens ≡ some t)
        × ((refresh x token call' w').0 ≡ raised refresh_token_reused)
        × (open_sessions t.user_id (refresh x token call' w').1.tokens ≡ 0)
  reuse_detected token call call' w fresh h =
      let (t, u, rot) = refresh-Rotates token call w h in
      let (refused, closed) =
        reused token call' (rotate call.refresh_jti call.now t) (refresh x token call w).1
          (rotated_found token call w t u fresh rot) refl refl in
      (t, rot.found, refused, closed)
