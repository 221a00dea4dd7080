-- ===== src/Agents/RateLimit/Commands.antt =====
-- The three Redis commands that the script of rate_limit.py calls, and what Redis documents of them.
-- `S` is the state of the server; each command takes the time at which it runs.
use campus_pilots.Base.{ℕ, suc, ◌+◌, ◌≤◌, ◌<◌, String, Option, none, some, ◌≡◌, ◌≢◌}

pub record Redis {ℓ} (S : Type ℓ) : Type ℓ where
  pub get : ℕ → String → S → Option ℕ
  pub incr : ℕ → String → S → ℕ × S
  pub expire : ℕ → String → ℕ → S → S

-- `INCR` makes a missing key 1, with no expiry, and keeps the expiry of a key that is there;
-- `EXPIRE` leaves the key as it is until the time to live is over; both touch one key only.
pub record IsRedis {ℓ} {S : Type ℓ} (redis : Redis S) : Type ℓ where
  pub incr_missing :
      (now t : ℕ) (key : String) (s : S)
      → now ≤ t
      → redis.get now key s ≡ none
      → ((redis.incr now key s).0 ≡ 1) × (redis.get t key (redis.incr now key s).1 ≡ some 1)
  pub incr_stored :
      (now t n : ℕ) (key : String) (s : S)
      → now ≤ t
      → redis.get now key s ≡ some n
      → redis.get t key s ≡ some n
      → ((redis.incr now key s).0 ≡ suc n)
        × (redis.get t key (redis.incr now key s).1 ≡ some (suc n))
  pub incr_other :
      (now t : ℕ) (key other : String) (s : S)
      → now ≤ t
      → other ≢ key
      → redis.get t other (redis.incr now key s).1 ≡ redis.get t other s
  pub expire_later :
      (now t ttl n : ℕ) (key : String) (s : S)
      → now ≤ t
      → t < now + ttl
      → redis.get t key s ≡ some n
      → redis.get t key (redis.expire now key ttl s) ≡ some n
  pub expire_other :
      (now t ttl : ℕ) (key other : String) (s : S)
      → now ≤ t
      → other ≢ key
      → redis.get t other (redis.expire now key ttl s) ≡ redis.get t other s
