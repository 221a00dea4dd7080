-- ===== src/Agents/RateLimit/Laws.antt =====
-- The limiter in memory and the one on Redis agree.
use campus_pilots.Base.{
  ℕ, zero, suc, ◌+◌, ◌/◌, ◌≤◌, String, Option, none, some, List, [], ◌∷◌, ◌≡◌, ◌≢◌, refl, ap, ◌∙◌,
  inl, inr, arith, str_eq, eq_iff, any, leb, Bool-cases,
}
use campus_pilots.Agents.RateLimit.{
  or_zero, Counts, increment, increment_all, check_keys, current, bump, bump_all, redis_check_keys,
  Request, check, redis_check, run, finish, request_keys,
}
use campus_pilots.Agents.RateLimit.Commands.{Redis, IsRedis}

abbrev stored : ℕ → Option ℕ
stored zero = none
stored (suc n) = some (suc n)

or_zero-stored : (n : ℕ) → or_zero (stored n) ≡ n
or_zero-stored zero = refl
or_zero-stored (suc n) = refl

module _ {ℓ} {S : Type ℓ} (redis : Redis S) (laws : IsRedis redis) where
  -- Until the end of the window, Redis has the counts of the memory.
  abbrev Agrees : ℕ → S → Counts → Type 0
  Agrees now s counts =
      (t : ℕ) (key : String) → now ≤ t → t / 60 ≡ now / 60 → redis.get t key s ≡ stored (counts key)

  bump-other :
      (now t : ℕ) (key other : String) (s : S)
      → now ≤ t
      → other ≢ key
      → redis.get t other (bump redis now 70 key s) ≡ redis.get t other s
  bump-other now t key other s h ne = ground (
    arith,
    laws.incr_other now t key other s h ne,
    laws.expire_other now t 70 key other (redis.incr now key s).1 h ne,
  )

  bump-same :
      (now t n : ℕ) (key : String) (s : S)
      → now ≤ t
      → t / 60 ≡ now / 60
      → redis.get now key s ≡ stored n
      → redis.get t key s ≡ stored n
      → redis.get t key (bump redis now 70 key s) ≡ some (suc n)
  bump-same now t zero key s h w e e' =
      let (one, fresh) = laws.incr_missing now t key s h e in
      rw one (laws.expire_later now t 70 1 key (redis.incr now key s).1 h (omega arith) fresh)
  bump-same now t (suc n) key s h w e e' =
      let (more, kept) = laws.incr_stored now t (suc n) key s h e e' in
      rw more (ground (arith, kept))

  bump-Agrees :
      (now : ℕ) (key : String) (s : S) (counts : Counts)
      → Agrees now s counts
      → Agrees now (bump redis now 70 key s) (increment key counts)
  bump-Agrees now key s counts agrees t other h w = elim (Bool-cases (str_eq other key)) [
    | inl e ↦
        let same : other ≡ key = (eq_iff other key).0 e in
        rw (e, same)
          (bump-same now t (counts key) key s h w (agrees now key (omega arith) refl)
            (agrees t key h w))
    | inr e ↦
        let ne : other ≢ key = λ p. (let yes_eq = (eq_iff other key).1 p in cc) in
        rw (e, bump-other now t key other s h ne) (agrees t other h w)
  ]

  bump_all-Agrees :
      (now : ℕ) (keys : List String) (s : S) (counts : Counts)
      → Agrees now s counts
      → Agrees now (bump_all redis now 70 keys s) (increment_all keys counts)
  bump_all-Agrees now [] s counts agrees = agrees
  bump_all-Agrees now (key ∷ keys) s counts agrees =
      bump_all-Agrees now keys (bump redis now 70 key s) (increment key counts)
        (bump-Agrees now key s counts agrees)

  current-Agrees :
      (now : ℕ) (s : S) (counts : Counts)
      → Agrees now s counts
      → (key : String) → current redis now key s ≡ counts key
  current-Agrees now s counts agrees key =
      ap or_zero (agrees now key (omega arith) refl) ∙ or_zero-stored (counts key)

  any-Agrees :
      (now limit : ℕ) (s : S) (counts : Counts)
      → Agrees now s counts
      → (keys : List String)
      → any (λ key. leb limit (current redis now key s)) keys
        ≡ any (λ key. leb limit (counts key)) keys
  any-Agrees now limit s counts agrees [] = refl
  any-Agrees now limit s counts agrees (key ∷ keys) =
      rw (current-Agrees now s counts agrees key, any-Agrees now limit s counts agrees keys) refl

  check_keys-Agrees :
      (now : ℕ) (keys : List String) (limit : ℕ) (s : S) (counts : Counts)
      → Agrees now s counts
      → ((redis_check_keys redis now keys limit s).0 ≡ (check_keys now keys limit counts).0)
        × Agrees now
            (redis_check_keys redis now keys limit s).1
            (check_keys now keys limit counts).1
  check_keys-Agrees now [] limit s counts agrees = (refl, agrees)
  check_keys-Agrees now (key ∷ keys) limit s counts agrees =
      let same = any-Agrees now limit s counts agrees (key ∷ keys) in
      let full = any (λ (k : String). leb limit (counts k)) (key ∷ keys) in
      elim (Bool-cases full) [
        | inl e ↦ rw (e, same ∙ e) (refl, agrees)
        | inr e ↦ rw (e, same ∙ e) (refl, bump_all-Agrees now (key ∷ keys) s counts agrees)
      ]

le-finish : (now : ℕ) (rs : List Request) → now ≤ finish now rs
le-finish now [] = omega arith
le-finish now (r ∷ rs) = omega (arith, le-finish (now + r.elapsed) rs)

later-in_window :
    (now : ℕ) (r : Request) (rs : List Request)
    → finish now (r ∷ rs) / 60 ≡ now / 60
    → (now + r.elapsed) / 60 ≡ now / 60
later-in_window now r rs h = omega (arith, le-finish (now + r.elapsed) rs)

module _ {ℓ} (hexdigest : String → String) (str : ℕ → String) {S : Type ℓ} (redis : Redis S)
    (laws : IsRedis redis) where
  run-Agrees :
      (now : ℕ) (rs : List Request) (s : S) (counts : Counts)
      → Agrees redis laws now s counts
      → finish now rs / 60 ≡ now / 60
      → (run (redis_check hexdigest str redis) now rs s).0
        ≡ (run (check hexdigest str) now rs counts).0
  unfolding check redis_check
  run-Agrees now [] s counts agrees h = refl
  run-Agrees now (r ∷ rs) s counts agrees h =
      let later = now + r.elapsed in
      let window : later / 60 ≡ now / 60 = later-in_window now r rs h in
      let ks = request_keys hexdigest str later r in
      let (answer, rest) =
        check_keys-Agrees redis laws later ks r.limit s counts
          (λ t key le w. agrees t key (omega arith) (omega arith)) in
      let later_answers =
        run-Agrees later rs (redis_check_keys redis later ks r.limit s).1
          (check_keys later ks r.limit counts).1 rest (omega arith) in
      rw (answer, later_answers) refl

  -- From an empty server and an empty dictionary, the limiter on Redis and the one in memory answer
  -- every sequence of requests alike, errors and their `Retry-After` included, as long as the last
  -- of them falls into the minute of the start. Redis is any server that keeps to `IsRedis`.
  pub redis_check-check :
      (now : ℕ) (rs : List Request) (s : S)
      → ((t : ℕ) (key : String) → redis.get t key s ≡ none)
      → finish now rs / 60 ≡ now / 60
      → (run (redis_check hexdigest str redis) now rs s).0
        ≡ (run (check hexdigest str) now rs (λ key. 0)).0
  redis_check-check now rs s empty h = run-Agrees now rs s (λ key. 0) (λ t key le w. empty t key) h
