-- ===== src/Platform/Auth/Logout.antt =====
-- A token that was logged out opens no session.
use campus_pilots.Base.{
  String, true, none, some, ◌≡◌, ◌≢◌, refl, arith, is_none, is_some, find-update_where,
  update_where, ==_refl, inl, inr, Option-cases, Bool-cases, false,
}
use campus_pilots.Exec.{ok}
use campus_pilots.Platform.Auth.{RefreshToken, RefreshResult, Tables, Externals, Call}
use campus_pilots.Platform.Auth.Store.{get_by_token_hash, is_unrevoked, revoke}
use campus_pilots.Platform.Auth.Refresh.{refresh, logout}

module _ (x : Externals) where
  -- A token that is unknown or revoked is not refreshed.
  refused :
      (token : String) (call : Call) (w : Tables) (r : RefreshResult)
      → ((t : RefreshToken)
          → get_by_token_hash (x.hash_refresh token) w.tokens ≡ some t
          → is_some t.revoked_at ≡ true)
      → (refresh x token call w).0 ≢ ok r
  refused token call w r revoked =
      elim (Option-cases (get_by_token_hash (x.hash_refresh token) w.tokens)) [
        | inl q ↦ unknown q
        | inr (t, q) ↦ known t q (revoked t q)
      ]
    where
      unknown :
          get_by_token_hash (x.hash_refresh token) w.tokens ≡ none
          → (refresh x token call w).0 ≢ ok r
      unknown q h = unfold refresh in ground (arith, q, h)

      known :
          (t : RefreshToken)
          → get_by_token_hash (x.hash_refresh token) w.tokens ≡ some t
          → is_some t.revoked_at ≡ true
          → (refresh x token call w).0 ≢ ok r
      known t q v h = unfold refresh in ground (arith, q, v, h)

  -- The rows of the token after its logout.
  logout_tokens :
      (token : String) (call : Call) (w : Tables) (t : RefreshToken)
      → get_by_token_hash (x.hash_refresh token) w.tokens ≡ some t
      → is_none t.revoked_at ≡ true
      → (logout x token call w).1.tokens
        ≡ update_where (is_unrevoked t.jti) (revoke call.now) w.tokens
  unfolding logout
  logout_tokens token call w t f n = ground (arith, f, n)

  logout_unknown :
      (token : String) (call : Call) (w : Tables)
      → get_by_token_hash (x.hash_refresh token) w.tokens ≡ none
      → (logout x token call w).1.tokens ≡ w.tokens
  unfolding logout
  logout_unknown token call w f = ground (arith, f)

  logout_revoked :
      (token : String) (call : Call) (w : Tables) (t : RefreshToken)
      → get_by_token_hash (x.hash_refresh token) w.tokens ≡ some t
      → is_none t.revoked_at ≡ false
      → (logout x token call w).1.tokens ≡ w.tokens
  unfolding logout
  logout_revoked token call w t f n = ground (arith, f, n)

  found_revoked :
      (token : String) (call : Call) (w : Tables) (t : RefreshToken)
      → get_by_token_hash (x.hash_refresh token) w.tokens ≡ some t
      → is_none t.revoked_at ≡ true
      → get_by_token_hash (x.hash_refresh token) (logout x token call w).1.tokens
        ≡ some (revoke call.now t)
  unfolding get_by_token_hash
  found_revoked token call w t f n = rw (logout_tokens token call w t f n) (
      find-update_where _ (is_unrevoked t.jti) (revoke call.now) (λ y. refl) w.tokens f
        (ground (arith, ==_refl t.jti, n)))

  -- A refresh with a token right after its logout does not succeed, whatever the token was before.
  pub logout_final :
      (token : String) (call call' : Call) (w : Tables) (r : RefreshResult)
      → (refresh x token call' (logout x token call w).1).0 ≢ ok r
  logout_final token call call' w r =
      refused token call' (logout x token call w).1 r λ s after. revoked s after
    where
      revoked :
          (s : RefreshToken)
          → get_by_token_hash (x.hash_refresh token) (logout x token call w).1.tokens ≡ some s
          → is_some s.revoked_at ≡ true
      revoked s after = elim (Option-cases (get_by_token_hash (x.hash_refresh token) w.tokens)) [
        | inl q ↦ cc (q, after, logout_unknown token call w q)
        | inr (t, q) ↦ elim (Bool-cases (is_none t.revoked_at)) [
          | inl n ↦ ground (arith, after, found_revoked token call w t q n)
          | inr n ↦ ground (arith, q, after, n, logout_revoked token call w t q n)
        ]
      ]
