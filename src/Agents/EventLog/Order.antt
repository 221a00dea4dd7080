-- ===== src/Agents/EventLog/Order.antt =====
-- Lists of events that are numbered one after the other.
use campus_pilots.Base.{
  ℕ, zero, suc, ◌+◌, ◌≤◌, max, Bool, true, false, ◌&&◌, List, [], ◌∷◌, ◌++◌, ◌≡◌, refl, subst, inl,
  inr, arith, Bool-cases, ltb, filter, length, if◌then◌else◌,
}
use campus_pilots.Base.Sort.{sort}
use campus_pilots.Agents.EventLog.{RuntimeEvent, is_of, max_sequence, later, drop}

-- The sequence numbers are n + 1, n + 2, …
abbrev pub From : ℕ → List RuntimeEvent → Type 0
From n [] = Unit
From n (e ∷ es) = (e.sequence ≡ suc n) × From (suc n) es

pub From-snoc :
    (n : ℕ) (es : List RuntimeEvent) (e : RuntimeEvent)
    → From n es
    → e.sequence ≡ suc (n + length es)
    → From n (es ++ (e ∷ []))
From-snoc n [] e h s = (omega (arith, s), tt)
From-snoc n (x ∷ xs) e h s = (h.0, From-snoc (suc n) xs e h.1 (omega (arith, s)))

pub filter-snoc {ℓ} :
    {A : Type ℓ} (p : A → Bool) (xs : List A) (y : A)
    → filter p (xs ++ (y ∷ [])) ≡ (if p y then filter p xs ++ (y ∷ []) else filter p xs)
filter-snoc p [] y = ground arith
filter-snoc p (x ∷ xs) y = elim (Bool-cases (p x)) [
  | inl e ↦ rw (e, filter-snoc p xs y) (ground arith)
  | inr e ↦ rw (e, filter-snoc p xs y) refl
]

pub filter-filter {ℓ} :
    {A : Type ℓ} (p q : A → Bool) (xs : List A)
    → filter (λ x. p x && q x) xs ≡ filter q (filter p xs)
filter-filter p q [] = refl
filter-filter p q (x ∷ xs) = ground (arith, filter-filter p q xs)

max_of : List RuntimeEvent → ℕ
max_of [] = 0
max_of (e ∷ es) = max e.sequence (max_of es)

max_sequence-filter :
    (run_id : ℕ) (rows : List RuntimeEvent)
    → max_sequence run_id rows ≡ max_of (filter (is_of run_id) rows)
unfolding max_sequence max_of
max_sequence-filter run_id [] = refl
max_sequence-filter run_id (e ∷ es) = ground (arith, max_sequence-filter run_id es)

max_of-From : (n : ℕ) (es : List RuntimeEvent) → From n es → max n (max_of es) ≡ n + length es
unfolding max_of
max_of-From n [] h = omega arith
max_of-From n (e ∷ es) h = omega (arith, max_of-From (suc n) es h.1, h.0)

-- The greatest number of a run is the number of its rows, where these are numbered from 1.
pub max_sequence-length :
    (run_id : ℕ) (rows : List RuntimeEvent)
    → From 0 (filter (is_of run_id) rows)
    → max_sequence run_id rows ≡ length (filter (is_of run_id) rows)
max_sequence-length run_id rows h =
    omega (arith, max_sequence-filter run_id rows, max_of-From 0 (filter (is_of run_id) rows) h)

filter-late :
    (k n : ℕ) (es : List RuntimeEvent) → From n es → k ≤ n → filter (λ e. ltb k e.sequence) es ≡ es
filter-late k n [] h le = refl
filter-late k n (e ∷ es) h le =
    let rest = filter-late k (suc n) es h.1 (omega arith) in
    let hit : ltb k e.sequence ≡ true = ground (arith, h.0) in rw (hit, rest) refl

-- The events after a number are what is left when so many are dropped.
pub filter-drop :
    (k n : ℕ) (es : List RuntimeEvent)
    → From n es
    → filter (λ e. ltb (k + n) e.sequence) es ≡ drop k es
filter-drop zero n es h =
    let same : 0 + n ≡ n = omega arith in rw same (filter-late n n es h (omega arith))
filter-drop (suc k) n [] h = refl
filter-drop (suc k) n (e ∷ es) h =
    let same : k + suc n ≡ suc k + n = omega arith in
    let miss : ltb (suc k + n) e.sequence ≡ false = ground (arith, h.0) in
    rw miss (
      subst (λ m. filter (λ (x : RuntimeEvent). ltb m x.sequence) es ≡ drop k es) same
        (filter-drop k (suc n) es h.1))

pub sort-From : (n : ℕ) (es : List RuntimeEvent) → From n es → sort later es ≡ es
unfolding sort
sort-From n [] h = refl
sort-From n (e ∷ []) h = refl
sort-From n (e ∷ f ∷ es) h =
    let rest = sort-From (suc n) (f ∷ es) h.1 in
    let before : later e f ≡ false = ground (arith, h.0, h.1.0) in rw rest (rw before refl)

pub From-drop : (k n : ℕ) (es : List RuntimeEvent) → From n es → From (k + n) (drop k es)
From-drop zero n es h = let same : n ≡ 0 + n = omega arith in subst (λ m. From m es) same h
From-drop (suc k) n [] h = tt
From-drop (suc k) n (e ∷ es) h =
    let same : k + suc n ≡ suc k + n = omega arith in
    subst (λ m. From m (drop k es)) same (From-drop k (suc n) es h.1)
