-- ===== src/Agents/RateLimit.antt =====
-- backend/app/modules/agent_platform/rate_limit.py: the limiter in memory and the one on Redis. A
-- time is a whole number of seconds, since the code only uses the whole part of its clock.
pub mod Commands
pub mod Laws
pub mod Bounds
mod Tests
use Prim.Native.String.{◌++◌}
use campus_pilots.Base.{
  ℕ, suc, ◌+◌, ◌-◌, ◌/◌, ◌%◌, max, String, Bool, not, List, [], ◌∷◌, map, str_eq, leb, ◌==◌, any,
  filter, count_where, if◌then◌else◌, none, some, Option,
}
use campus_pilots.Base.Text.{strip}
use campus_pilots.Errors.{AppError, rate_limited}
use campus_pilots.Exec.{Result, ok, raised, Exec}
use campus_pilots.Agents.RateLimit.Commands.{Redis}

-- The error's number is its `Retry-After` header.
abbrev pub RateLimited : ℕ → AppError
RateLimited retry_after = rate_limited (max 1 retry_after)

-- `dict.fromkeys`: each value once, in the order of the first occurrences.
unfoldable pub fromkeys : List String → List String
fromkeys [] = []
fromkeys (v ∷ vs) = v ∷ filter (λ u. not (str_eq u v)) (fromkeys vs)

-- `hexdigest` stands for SHA-256 and `str` for the decimal text of a number.
module _ (hexdigest : String → String) (str : ℕ → String) where
  unfoldable pub safe_key : String → String → ℕ → String
  safe_key scope subject window =
      "campuspilot:rate:" ++ (scope ++ (":" ++ (str window ++ (":" ++ hexdigest subject))))

  unfoldable pub keys : String → List String → ℕ → List String
  keys scope subjects window =
      map (λ v. safe_key scope v window) (fromkeys (filter (λ v. not (str_eq v "")) subjects))

-- `lower` stands for `str.lower`, and the first text is the user's identifier.
unfoldable pub user_ip_rate_limit_subjects :
    (lower : String → String) → String → String → List String
user_ip_rate_limit_subjects lower user_id client_ip =
    let ip = lower (strip client_ip) in
    let normalized_ip = if str_eq ip "" then "unknown" else ip in
    ("user:" ++ user_id) ∷ ("ip:" ++ normalized_ip) ∷ []

-- `_counts`, with 0 for a key that is not there.
abbrev pub Counts : Type 0
Counts = String → ℕ

abbrev pub increment : String → Counts → Counts
increment key counts k = if str_eq k key then suc (counts k) else counts k

abbrev pub increment_all : List String → Counts → Counts
increment_all [] counts = counts
increment_all (key ∷ keys) counts = increment_all keys (increment key counts)

-- `InMemoryRateLimiter.check`, with the keys that `_keys` gives.
abbrev pub check_keys : ℕ → List String → ℕ → Exec Counts (Unit {0})
check_keys now keys limit counts =
    if any (λ key. leb limit (counts key)) keys
    then (raised (RateLimited (60 - now % 60)), counts)
    else (ok tt, increment_all keys counts)

abbrev pub or_zero : Option ℕ → ℕ
or_zero none = 0
or_zero (some n) = n

module _ {ℓ} {S : Type ℓ} (redis : Redis S) where
  -- `tonumber(redis.call('GET', key) or '0')`
  abbrev pub current : ℕ → String → S → ℕ
  current now key s = or_zero (redis.get now key s)

  abbrev pub bump : ℕ → ℕ → String → S → S
  bump now ttl key s =
      let (count, written) = redis.incr now key s in
      if count == 1 then redis.expire now key ttl written else written

  abbrev pub bump_all : ℕ → ℕ → List String → S → S
  bump_all now ttl [] s = s
  bump_all now ttl (key ∷ keys) s = bump_all now ttl keys (bump now ttl key s)

  -- The script `_ATOMIC_CHECK_AND_INCREMENT`.
  abbrev pub check_and_increment : ℕ → List String → ℕ → ℕ → S → ℕ × S
  check_and_increment now keys limit ttl s =
      if any (λ key. leb limit (current now key s)) keys
      then (0, s)
      else (1, bump_all now ttl keys s)

  abbrev accept : ℕ → ℕ × S → Result (Unit {0}) × S
  accept now (accepted, s) =
      if accepted == 1 then (ok tt, s) else (raised (RateLimited (60 - now % 60)), s)

  -- `RedisRateLimiter.check`, with the keys that `_keys` gives.
  abbrev pub redis_check_keys : ℕ → List String → ℕ → Exec S (Unit {0})
  redis_check_keys now [] limit s = (ok tt, s)
  redis_check_keys now (key ∷ keys) limit s =
      accept now (check_and_increment now (key ∷ keys) limit 70 s)

-- One call of `check`, so many seconds after the one before it.
pub record Request : Type 0 where
  pub elapsed : ℕ
  pub scope : String
  pub subjects : List String
  pub limit : ℕ

module _ (hexdigest : String → String) (str : ℕ → String) where
  abbrev pub request_keys : ℕ → Request → List String
  request_keys now r = keys hexdigest str r.scope r.subjects (now / 60)

  unfoldable pub check : ℕ → Request → Exec Counts (Unit {0})
  check now r = check_keys now (request_keys now r) r.limit

  unfoldable pub redis_check {ℓ} : {S : Type ℓ} → Redis S → ℕ → Request → Exec S (Unit {0})
  redis_check redis now r = redis_check_keys redis now (request_keys now r) r.limit

-- A limiter answers a sequence of requests, the first of them `elapsed` seconds after the start.
abbrev pub run {ℓ} :
    {S : Type ℓ}
    → (ℕ → Request → Exec S (Unit {0}))
    → ℕ
    → List Request
    → S
    → List (Result (Unit {0})) × S
run limiter now [] s = ([], s)
run limiter now (r ∷ rs) s =
    let later = now + r.elapsed in
    let (answer, written) = limiter later r s in
    let (answers, last) = run limiter later rs written in (answer ∷ answers, last)

-- When the last of the requests is made.
abbrev pub finish : ℕ → List Request → ℕ
finish now [] = now
finish now (r ∷ rs) = finish (now + r.elapsed) rs

-- How often the requests that were admitted have counted a key.
module _ (hexdigest : String → String) (str : ℕ → String) where
  abbrev pub admitted : String → ℕ → List Request → List (Result (Unit {0})) → ℕ
  admitted key now [] answers = 0
  admitted key now (r ∷ rs) [] = 0
  admitted key now (r ∷ rs) (ok _ ∷ answers) =
      count_where (str_eq key) (request_keys hexdigest str (now + r.elapsed) r)
      + admitted key (now + r.elapsed) rs answers
  admitted key now (r ∷ rs) (raised _ ∷ answers) = admitted key (now + r.elapsed) rs answers
