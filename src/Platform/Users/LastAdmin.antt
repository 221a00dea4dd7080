-- ===== src/Platform/Users/LastAdmin.antt =====
-- The last active super administrator.
use campus_pilots.Base.{
  ℕ, ◌+◌, ◌≤◌, String, Bool, true, false, not, ◌&&◌, Option, none, some, List, [], ◌∷◌, ◌≡◌, refl,
  ◌⊎◌, inl, inr, arith, Bool-cases, Option-cases, ◌==◌, ==→eq, leb, find, find-hit, update_where,
  count_where, All, is_none, subst, subst⁻¹, All-map,
}
use mathlib.Core.Option.{some-injective}
use campus_pilots.Platform.Auth.{UserStatus, active, disabled, locked}
use campus_pilots.Platform.Users.{
  User, Tables, Changes, Admin, is_active, is_disabled, sets_locked, sets_disabled, is_user, is_at,
  unlocked, changed, updated, get_for_update, is_super_admin, count_active_super_admins,
  email_taken, drop_tokens, update_user,
}

abbrev is_counted : Tables → User → Bool
is_counted w u = is_active u.status && (is_none u.deleted_at && is_super_admin w u.id)

-- The update of some rows takes away at most as many passing rows as it touches.
count-update {ℓ} :
    {A : Type ℓ} (p q : A → Bool) (f : A → A) (xs : List A)
    → count_where p xs ≤ count_where p (update_where q f xs) + count_where q xs
count-update p q f [] = omega arith
count-update p q f (x ∷ xs) = elim (Bool-cases (q x)) [
  | inl hit ↦ ground (arith, hit, count-update p q f xs)
  | inr miss ↦ ground (arith, miss, count-update p q f xs)
]

-- It takes away none where each touched row that passes still passes.
count-update_kept {ℓ} :
    {A : Type ℓ} (p q : A → Bool) (f : A → A) (xs : List A)
    → All (λ x. q x ≡ true → p x ≡ true → p (f x) ≡ true) xs
    → count_where p xs ≤ count_where p (update_where q f xs)
count-update_kept p q f [] h = omega arith
count-update_kept p q f (x ∷ xs) (here, rest) = elim (Bool-cases (q x)) [
  | inl hit ↦ elim (Bool-cases (p x)) [
    | inl passes ↦
        rw (hit, passes, here hit passes) (omega (arith, count-update_kept p q f xs rest))
    | inr fails ↦ rw (hit, fails) (omega (arith, count-update_kept p q f xs rest))
  ]
  | inr miss ↦ rw miss (omega (arith, count-update_kept p q f xs rest))
]

count-narrower {ℓ} :
    {A : Type ℓ} (p q : A → Bool)
    → ((x : A) → p x ≡ true → q x ≡ true)
    → (xs : List A) → count_where p xs ≤ count_where q xs
count-narrower p q h [] = omega arith
count-narrower p q h (x ∷ xs) = elim (Bool-cases (p x)) [
  | inl hit ↦ rw (hit, h x hit) (omega (arith, count-narrower p q h xs))
  | inr miss ↦ rw miss (omega (arith, count-narrower p q h xs))
]

no_hit {ℓ κ} :
    {A : Type ℓ} (P : A → Type κ) (k : A → Bool) (xs : List A)
    → count_where k xs ≤ 0
    → All (λ x. k x ≡ true → P x) xs
no_hit P k [] h = tt
no_hit P k (x ∷ xs) h = elim (Bool-cases (k x)) [
  | inl hit ↦ absurd (ground (arith, h, hit))
  | inr miss ↦ ((λ hit. ground (arith, hit, miss)), no_hit P k xs (ground (arith, h, miss)))
]

-- Where one row at most passes, a statement on the found row is one on every row that passes.
at_found {ℓ κ} :
    {A : Type ℓ} (P : A → Type κ) (k : A → Bool) (xs : List A) (u : A)
    → find k xs ≡ some u
    → count_where k xs ≤ 1
    → P u
    → All (λ x. k x ≡ true → P x) xs
at_found P k [] u found one h = tt
at_found P k (x ∷ xs) u found one h = elim (Bool-cases (k x)) [
  | inl hit ↦
      let same : x ≡ u = some-injective x u (rw hit at found) in
      ((λ again. subst⁻¹ P same h), no_hit P k xs (ground (arith, one, hit)))
  | inr miss ↦ (
    (λ hit. ground (arith, hit, miss)),
    at_found P k xs u (rw miss at found) (ground (arith, one, miss)) h,
  )
]

kept_status :
    (s : Option UserStatus) (old : UserStatus)
    → sets_locked s ≡ false
    → sets_disabled s ≡ false
    → is_active old ≡ true
    → is_active (changed s old) ≡ true
kept_status none old l d h = h
kept_status (some active) old l d h = refl
kept_status (some disabled) old l d h = cc
kept_status (some locked) old l d h = cc

unlocked-same :
    (s : Option UserStatus) (u : User)
    → ((unlocked s u).id ≡ u.id) × ((unlocked s u).deleted_at ≡ u.deleted_at)
unlocked-same none u = (refl, refl)
unlocked-same (some active) u = (refl, refl)
unlocked-same (some disabled) u = (refl, refl)
unlocked-same (some locked) u = (refl, refl)

-- A counted user whom the guard lets pass is counted after the update.
still_counted :
    (c : Changes) (now : ℕ) (w : Tables) (u : User)
    → sets_locked c.status ≡ false
    → ((sets_disabled c.status && not (is_disabled u.status)) && (is_super_admin w u.id && true))
      ≡ false
    → is_counted w u ≡ true
    → is_counted w (updated c now u) ≡ true
still_counted c now w u fine more h =
    let (same_id, same_deleted) = unlocked-same c.status u in
    let was : is_active u.status ≡ true = ground (arith, h) in
    let stays : sets_disabled c.status ≡ false = ground (arith, more, h) in
    rw (same_id, same_deleted, kept_status c.status u.status fine stays was) (ground (arith, h))

module _ (w : Tables) (u : User) (user_id version now : ℕ) (c : Changes)
    (found : find (is_user user_id) w.users ≡ some u)
    (one : count_where (λ (u : User). u.id == user_id) w.users ≤ 1) where
  at_is_user : (x : User) → is_at u.id version x ≡ true → is_user user_id x ≡ true
  at_is_user x hit =
      let same : u.id ≡ user_id =
        ==→eq u.id user_id (ground (arith, find-hit (is_user user_id) w.users found)) in
      subst (λ n. is_user n x ≡ true) same (ground (arith, hit))

  one_user : count_where (is_user user_id) w.users ≤ 1
  one_user = omega (
    arith,
    one,
    count-narrower (is_user user_id) (λ (x : User). x.id == user_id) (λ x h. ground (arith, h))
        w.users,
  )

  after_others :
      2 ≤ count_where (is_counted w) w.users
      → 1 ≤ count_where (is_counted w) (update_where (is_at u.id version) (updated c now) w.users)
  after_others two = omega (
    arith,
    two,
    one_user,
    count-update (is_counted w) (is_at u.id version) (updated c now) w.users,
    count-narrower (is_at u.id version) (is_user user_id) at_is_user w.users,
  )

  after_last :
      (is_counted w u ≡ true → is_counted w (updated c now u) ≡ true)
      → 1 ≤ count_where (is_counted w) w.users
      → 1 ≤ count_where (is_counted w) (update_where (is_at u.id version) (updated c now) w.users)
  after_last still some_admin = omega (
    arith,
    some_admin,
    count-update_kept (is_counted w) (is_at u.id version) (updated c now) w.users (
        All-map
          (λ (x : User).
            is_user user_id x ≡ true
            → is_counted w x ≡ true
            → is_counted w (updated c now x) ≡ true)
          (λ (x : User).
            is_at u.id version x ≡ true
            → is_counted w x ≡ true
            → is_counted w (updated c now x) ≡ true)
          (λ x h hit. h (at_is_user x hit)) w.users
          (at_found (λ (x : User). is_counted w x ≡ true → is_counted w (updated c now x) ≡ true)
            (is_user user_id) w.users u found one_user still)),
  )

module _ (same_email : String → String → Bool) (uuid_text : ℕ → String) where
  -- An update leaves the tables alone, or it passes the guard and writes the row of the user.
  update-cases :
      (actor : Admin) (user_id version : ℕ) (c : Changes) (request_id : String) (now : ℕ)
      (w : Tables)
      → let after = (update_user same_email uuid_text actor user_id version c request_id now w).1 in
        (after ≡ w)
        ⊎ ((u : User) × (get_for_update user_id w ≡ some u)
            × (sets_locked c.status ≡ false)
            × (((sets_disabled c.status && not (is_disabled u.status))
                  && (is_super_admin w u.id && leb (count_active_super_admins w) 1))
                ≡ false)
            × (after.users ≡ update_where (is_at u.id version) (updated c now) w.users)
            × (after.roles ≡ w.roles)
            × (after.user_roles ≡ w.user_roles))
  unfolding update_user drop_tokens
  update-cases actor user_id version c request_id now w =
      elim (Option-cases (get_for_update user_id w)) [
        | inl missing ↦ inl (rw missing refl)
        | inr (u, found) ↦ elim (Bool-cases (u.version == version)) [
          | inr stale ↦ inl (rw (found, stale) refl)
          | inl current ↦ elim (Bool-cases (sets_locked c.status)) [
            | inl bad ↦ inl (rw (found, current, bad) refl)
            | inr fine ↦ elim (Bool-cases (email_taken same_email u.id c.email w.users)) [
              | inl taken ↦ inl (rw (found, current, fine, taken) refl)
              | inr free ↦
                  elim (Bool-cases (
                    (sets_disabled c.status && not (is_disabled u.status))
                    && (is_super_admin w u.id && leb (count_active_super_admins w) 1))) [
                      | inl last ↦ inl (rw (found, current, fine, free, last) refl)
                      | inr more ↦
                          elim (Bool-cases (count_where (is_at u.id version) w.users == 1)) [
                            | inr other ↦ inl (rw (found, current, fine, free, more, other) refl)
                            | inl one ↦ inr (
                              u,
                              found,
                              fine,
                              more,
                              rw (found, current, fine, free, more, one) refl,
                              rw (found, current, fine, free, more, one) refl,
                              rw (found, current, fine, free, more, one) refl,
                            )
                          ]
                    ]
            ]
          ]
        ]
      ]

  -- An update of a user, whether it succeeds or raises, leaves an active super administrator where
  -- there was one and the identifier of the user is that of one row at most.
  pub update_user_keeps_admin :
      (actor : Admin) (user_id version : ℕ) (c : Changes) (request_id : String) (now : ℕ)
      (w : Tables)
      → count_where (λ (u : User). u.id == user_id) w.users ≤ 1
      → 1 ≤ count_active_super_admins w
      → 1
        ≤ count_active_super_admins
            (update_user same_email uuid_text actor user_id version c request_id now w).1
  unfolding count_active_super_admins get_for_update
  update_user_keeps_admin actor user_id version c request_id now w one some_admin =
      elim (update-cases actor user_id version c request_id now w) [
        | inl same ↦ rw same some_admin
        | inr (u, found, fine, more, users, roles, links) ↦
            rw (users, roles, links)
              (elim (Bool-cases (leb (count_active_super_admins w) 1)) [
                | inl last ↦
                    after_last w u user_id version now c found one
                      (still_counted c now w u fine (rw last at more)) some_admin
                | inr others ↦
                    after_others w u user_id version now c found one (ground (arith, others))
              ])
      ]
