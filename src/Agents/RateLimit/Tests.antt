-- ===== src/Agents/RateLimit/Tests.antt =====
-- Three requests on a concrete server: a function from keys to a value and its expiry.
use campus_pilots.Base.{
  ℕ, suc, ◌+◌, ◌≤◌, ◌<◌, String, false, Option, none, some, List, [], ◌∷◌, ◌≡◌, ◌≢◌, refl, arith,
  str_eq, ltb, if◌then◌else◌, eq_refl, eq_iff, All, count_where,
}
use campus_pilots.Exec.{ok, raised}
use campus_pilots.Agents.RateLimit.{
  RateLimited, Request, check, redis_check, run, admitted, request_keys, keys, safe_key, fromkeys,
}
use campus_pilots.Agents.RateLimit.Commands.{Redis, IsRedis}
use campus_pilots.Agents.RateLimit.Laws.{redis_check-check}
use campus_pilots.Agents.RateLimit.Bounds.{check-admitted}

abbrev Server : Type 0
Server = String → Option (ℕ × Option ℕ)

abbrev alive : ℕ → Option (ℕ × Option ℕ) → Option ℕ
alive now none = none
alive now (some (n, none)) = some n
alive now (some (n, some e)) = if ltb now e then some n else none

abbrev expiry : Option (ℕ × Option ℕ) → Option ℕ
expiry none = none
expiry (some (n, e)) = e

abbrev put : String → ℕ × Option ℕ → Server → Server
put key v s k = if str_eq k key then some v else s k

abbrev incr_value : Option ℕ → Option (ℕ × Option ℕ) → ℕ × (ℕ × Option ℕ)
incr_value none old = (1, (1, none))
incr_value (some n) old = (suc n, (suc n, expiry old))

abbrev expire_value : Option ℕ → ℕ → Option (ℕ × Option ℕ) → Option (ℕ × Option ℕ)
expire_value none e old = none
expire_value (some n) e old = some (n, some e)

abbrev server : Redis Server
server = record {
  get = λ now key s. alive now (s key);
  incr =
      λ now key s. let (count, v) = incr_value (alive now (s key)) (s key) in (count, put key v s);
  expire = λ now key ttl s k.
      if str_eq k key then expire_value (alive now (s k)) (now + ttl) (s k) else s k;
}

incr_value-stored :
    (now t n : ℕ) (old : Option (ℕ × Option ℕ))
    → alive now old ≡ some n
    → alive t old ≡ some n
    → ((incr_value (alive now old) old).0 ≡ suc n)
      × (alive t (some (incr_value (alive now old) old).1) ≡ some (suc n))
incr_value-stored now t n none h k = cc
incr_value-stored now t n (some (m, none)) h k = ground arith
incr_value-stored now t n (some (m, some e)) h k = ground arith

expire_value-later :
    (now t n ttl : ℕ) (old : Option (ℕ × Option ℕ))
    → now ≤ t
    → t < now + ttl
    → alive t old ≡ some n
    → alive t (expire_value (alive now old) (now + ttl) old) ≡ some n
expire_value-later now t n ttl none l b h = cc
expire_value-later now t n ttl (some (m, none)) l b h = ground arith
expire_value-later now t n ttl (some (m, some e)) l b h = ground arith

differs : (key other : String) → other ≢ key → str_eq other key ≡ false
differs key other ne = ground (arith, eq_iff other key)

server-IsRedis : IsRedis server
server-IsRedis = record {
  incr_missing = λ now t key s le e. rw (eq_refl key, e) (refl, refl);
  incr_stored = λ now t n key s le e e'. rw (eq_refl key) (incr_value-stored now t n (s key) e e');
  incr_other = λ now t key other s le ne. rw (differs key other ne) refl;
  expire_later =
      λ now t ttl n key s le b e. rw (eq_refl key) (expire_value-later now t n ttl (s key) le b e);
  expire_other = λ now t ttl key other s le ne. rw (differs key other ne) refl;
}

abbrev login : ℕ → Request
login n = record {
  elapsed = n;
  scope = "login";
  subjects = "user:1" ∷ "" ∷ "ip:10" ∷ "user:1" ∷ [];
  limit = 2;
}

abbrev requests : List Request
requests = login 0 ∷ login 5 ∷ login 10 ∷ []

abbrev digest : String → String
digest s = s

abbrev str : ℕ → String
str n = "2"

login_requests :
    (run (check digest str) 125 requests (λ key. 0)).0
    ≡ ok tt ∷ ok tt ∷ raised (RateLimited 40) ∷ []
unfolding check keys safe_key fromkeys
login_requests = refl

redis_check-check_example :
    (run (redis_check digest str server) 125 requests (λ key. none)).0
    ≡ (run (check digest str) 125 requests (λ key. 0)).0
redis_check-check_example =
    redis_check-check digest str server server-IsRedis 125 requests (λ key. none) (λ t key. refl)
      (omega arith)

abbrev key : String
key = "campuspilot:rate:login:2:user:1"

once_each :
    (t : ℕ)
    → All (λ (r : Request). count_where (str_eq key) (request_keys digest str t r) ≤ 1) requests
unfolding keys safe_key fromkeys
once_each t = (omega arith, (omega arith, (omega arith, tt)))

check-admitted_example :
    ((run (check digest str) 125 requests (λ k. 0)).1 key
      ≡ 0 + admitted digest str key 125 requests (run (check digest str) 125 requests (λ k. 0)).0)
    × ((run (check digest str) 125 requests (λ k. 0)).1 key ≤ 2)
check-admitted_example =
    check-admitted digest str key 2 125 requests (λ k. 0) (omega arith)
      (omega arith, (omega arith, (omega arith, tt))) once_each
