-- ===== src/Agents/RateLimit/Bounds.antt =====
-- What the limiter in memory counts, and that it admits no more than the limit.
use campus_pilots.Base.{
  ℕ, suc, ◌+◌, ◌≤◌, ◌⊎◌, eq_iff, String, false, List, [], ◌∷◌, ◌≡◌, refl, inl, inr, arith, str_eq,
  any, leb, Bool-cases, count_where, All,
}
use campus_pilots.Agents.RateLimit.{
  Counts, increment, increment_all, Request, check, run, admitted, request_keys,
}

increment_all-counts :
    (key : String) (keys : List String) (counts : Counts)
    → increment_all keys counts key ≡ counts key + count_where (str_eq key) keys
increment_all-counts key [] counts = omega arith
increment_all-counts key (k ∷ ks) counts =
    let rest = increment_all-counts key ks (increment k counts) in
    elim (Bool-cases (str_eq key k)) [
      | inl e ↦ ground (arith, e, rest)
      | inr e ↦ ground (arith, e, rest)
    ]

-- Where no counted key is at the limit, a key that is counted is below it.
below_limit :
    (key : String) (limit : ℕ) (keys : List String) (counts : Counts)
    → any (λ k. leb limit (counts k)) keys ≡ false
    → (count_where (str_eq key) keys ≡ 0) ⊎ (suc (counts key) ≤ limit)
below_limit key limit [] counts h = inl refl
below_limit key limit (k ∷ ks) counts h = elim (Bool-cases (str_eq key k)) [
  | inl e ↦ let same : key ≡ k = (eq_iff key k).0 e in inr (rw same (ground (arith, h)))
  | inr e ↦ rw e (omega (arith, below_limit key limit ks counts (ground (arith, h))))
]

-- In a run of the limiter in memory, a key's counter grows by what the admitted requests count, and
-- stays within a limit that the requests share where no request counts the key twice.
pub check-admitted :
    (hexdigest : String → String) (str : ℕ → String) (key : String) (limit now : ℕ)
    (rs : List Request) (counts : Counts)
    → counts key ≤ limit
    → All (λ (r : Request). r.limit ≤ limit) rs
    → ((t : ℕ)
        → All (λ (r : Request). count_where (str_eq key) (request_keys hexdigest str t r) ≤ 1) rs)
    → ((run (check hexdigest str) now rs counts).1 key
        ≡ counts key
          + admitted hexdigest str key now rs (run (check hexdigest str) now rs counts).0)
      × ((run (check hexdigest str) now rs counts).1 key ≤ limit)
unfolding check
check-admitted hexdigest str key limit now [] counts h l o = (omega arith, h)
check-admitted hexdigest str key limit now (r ∷ rs) counts h l o =
    let later = now + r.elapsed in
    let ks = request_keys hexdigest str later r in
    elim (Bool-cases (any (λ (k : String). leb r.limit (counts k)) ks)) [
      | inl e ↦ rw e (check-admitted hexdigest str key limit later rs counts h l.1 (λ t. (o t).1))
      | inr e ↦
          let counted = increment_all-counts key ks counts in
          let below = below_limit key r.limit ks counts e in
          let (grows, bounded) =
            check-admitted hexdigest str key limit later rs (increment_all ks counts)
              (omega (arith, below, counted, h, l.0, (o later).0)) l.1 (λ t. (o t).1) in
          rw e (omega (arith, grows, counted), bounded)
    ]
