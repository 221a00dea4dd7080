-- ===== src/Base/Lists.antt =====
-- Tables as lists: the rows of a relation, with search, update and counting by a Boolean test.
use Prim.Native.Nat.{ℕ, suc, ◌+◌, ◌≤◌}
use mathlib.Core.Bool.{Bool, true, false, ◌||◌, ◌&&◌}
use mathlib.Core.Option.{Option, none, some, some-injective}
use mathlib.Core.Path.{◌≡◌, subst, refl}
use native.Mathlib.Omega.{arith}
use mathlib.Core.Logic.{inl, inr}
use mathlib.Core.List.{List, [], ◌∷◌, map}
use campus_pilots.Base.Tests.{if◌then◌else◌, Bool-cases}

module _ {ℓ} {A : Type ℓ} where
  abbrev pub length : List A → ℕ
  length [] = 0
  length (x ∷ xs) = suc (length xs)

  -- `SELECT … WHERE p LIMIT 1`: the first row that passes the test.
  abbrev pub find : (A → Bool) → List A → Option A
  find p [] = none
  find p (x ∷ xs) = if p x then some x else find p xs

  -- `UPDATE … SET f WHERE p`: every row that passes the test is rewritten.
  abbrev pub update_where : (A → Bool) → (A → A) → List A → List A
  update_where p f [] = []
  update_where p f (x ∷ xs) = (if p x then f x else x) ∷ update_where p f xs

  -- How many rows pass the test, which is the `rowcount` of such an update.
  abbrev pub count_where : (A → Bool) → List A → ℕ
  count_where p [] = 0
  count_where p (x ∷ xs) = (if p x then 1 else 0) + count_where p xs

  abbrev pub any : (A → Bool) → List A → Bool
  any p [] = false
  any p (x ∷ xs) = p x || any p xs

  abbrev pub all : (A → Bool) → List A → Bool
  all p [] = true
  all p (x ∷ xs) = p x && all p xs

  abbrev pub filter : (A → Bool) → List A → List A
  filter p [] = []
  filter p (x ∷ xs) = let rest = filter p xs in if p x then x ∷ rest else rest

  -- A predicate of every row.
  abbrev pub All {κ} : (A → Type κ) → List A → Type κ
  All P [] = Unit
  All P (x ∷ xs) = P x × All P xs

module _ {ℓ κ} {A : Type ℓ} (P : A → Type κ) where
  pub All-find :
      (p : A → Bool) (xs : List A) {x : A} → All P xs → find p xs ≡ some x → P x × (p x ≡ true)
  All-find p [] h e = cc
  All-find p (y ∷ ys) {x} h e = elim (Bool-cases (p y)) [
    | inl hit ↦
        let same : y ≡ x = some-injective y x (rw hit at e) in
        (subst P same h.0, subst (λ z. p z ≡ true) same hit)
    | inr miss ↦ All-find p ys h.1 (rw miss at e)
  ]

  pub All-update_where {μ} :
      (Q : A → Type μ) (p : A → Bool) (f : A → A)
      → ((x : A) → p x ≡ true → P x → Q (f x))
      → ((x : A) → p x ≡ false → P x → Q x)
      → (xs : List A) → All P xs
      → All Q (update_where p f xs)
  All-update_where Q p f hit miss [] h = tt
  All-update_where Q p f hit miss (x ∷ xs) h = elim (Bool-cases (p x)) [
    | inl e ↦ (rw e (hit x e h.0), All-update_where Q p f hit miss xs h.1)
    | inr e ↦ (rw e (miss x e h.0), All-update_where Q p f hit miss xs h.1)
  ]

  pub All-map {μ} : (Q : A → Type μ) → ((x : A) → P x → Q x) → (xs : List A) → All P xs → All Q xs
  All-map Q f [] h = tt
  All-map Q f (x ∷ xs) h = (f x h.0, All-map Q f xs h.1)

  pub All-and {μ} : (Q : A → Type μ) (xs : List A) → All P xs → All Q xs → All (λ x. P x × Q x) xs
  All-and Q [] h k = tt
  All-and Q (x ∷ xs) h k = ((h.0, k.0), All-and Q xs h.1 k.1)

module _ {ℓ} {A : Type ℓ} where
  -- Where an update keeps the test of a search, the search finds the updated row.
  pub find-update_where :
      (p q : A → Bool) (f : A → A)
      → ((x : A) → p (f x) ≡ p x)
      → (xs : List A) {x : A} → find p xs ≡ some x
      → q x ≡ true
      → find p (update_where q f xs) ≡ some (f x)
  find-update_where p q f keep [] h e = cc
  find-update_where p q f keep (y ∷ ys) {x} h e = elim (Bool-cases (p y)) [
    | inl hit ↦
        let same : y ≡ x = some-injective y x (rw hit at h) in
        rw (same, e) (rw (keep x, ← same, hit))
    | inr miss ↦ elim (Bool-cases (q y)) [
      | inl hit ↦ rw (hit, keep y, miss) (find-update_where p q f keep ys (rw miss at h) e)
      | inr other ↦ rw (other, miss) (find-update_where p q f keep ys (rw miss at h) e)
    ]
  ]

  pub find-hit : (p : A → Bool) (xs : List A) {x : A} → find p xs ≡ some x → p x ≡ true
  find-hit p [] h = cc
  find-hit p (y ∷ ys) {x} h = elim (Bool-cases (p y)) [
    | inl hit ↦
        let same : y ≡ x = some-injective y x (rw hit at h) in subst (λ z. p z ≡ true) same hit
    | inr miss ↦ find-hit p ys (rw miss at h)
  ]

  pub find-none : (p : A → Bool) (xs : List A) → any p xs ≡ false → find p xs ≡ none
  find-none p [] h = refl
  find-none p (x ∷ xs) h = ground (arith, find-none p xs)

  pub any-find :
      (p : A → Bool) (xs : List A) (x : A)
      → any p xs ≡ false
      → (q : A → Bool) → find q xs ≡ some x
      → p x ≡ false
  any-find p [] x h q e = cc
  any-find p (y ∷ ys) x h q e = elim (Bool-cases (q y)) [
    | inl hit ↦
        let same : y ≡ x = some-injective y x (rw hit at e) in
        subst (λ z. p z ≡ false) same (ground (arith, h))
    | inr miss ↦ any-find p ys x (ground (arith, h)) q (rw miss at e)
  ]

  -- A row that an update does not touch is still found.
  pub find-update_where_kept :
      (p q : A → Bool) (f : A → A)
      → ((x : A) → p (f x) ≡ p x)
      → (xs : List A) {x : A} → find p xs ≡ some x
      → q x ≡ false
      → find p (update_where q f xs) ≡ some x
  find-update_where_kept p q f keep [] h e = cc
  find-update_where_kept p q f keep (y ∷ ys) {x} h e = elim (Bool-cases (p y)) [
    | inl hit ↦
        let same : y ≡ x = some-injective y x (rw hit at h) in rw (same, e) (rw (← same, hit) refl)
    | inr miss ↦ elim (Bool-cases (q y)) [
      | inl changed ↦
          rw (changed, keep y, miss) (find-update_where_kept p q f keep ys (rw miss at h) e)
      | inr other ↦ rw (other, miss) (find-update_where_kept p q f keep ys (rw miss at h) e)
    ]
  ]

  -- What is found after an update was found before it.
  pub find-before_update :
      (p q : A → Bool) (f : A → A)
      → ((x : A) → p (f x) ≡ p x)
      → (xs : List A) {y : A} → find p (update_where q f xs) ≡ some y
      → (x : A) × (find p xs ≡ some x) × ((if q x then f x else x) ≡ y)
  find-before_update p q f keep [] h = cc
  find-before_update p q f keep (x ∷ xs) {y} h =
      let new = if q x then f x else x in
      elim (Bool-cases (p x)) [
        | inl hit ↦
            let there : p new ≡ true = ground (arith, hit, keep x) in
            (x, rw hit refl, some-injective new y (rw there at h))
        | inr miss ↦
            let absent : p new ≡ false = ground (arith, miss, keep x) in
            let (z, found, same) = find-before_update p q f keep xs (rw absent at h) in
            (z, rw miss found, same)
      ]

  -- A search that finds nothing counts nothing.
  pub count-find : (p : A → Bool) (xs : List A) → find p xs ≡ none → count_where p xs ≡ 0
  count-find p [] h = refl
  count-find p (x ∷ xs) h = ground (arith, count-find p xs)

  update-none :
      (p : A → Bool) (f : A → A) (xs : List A) → count_where p xs ≡ 0 → update_where p f xs ≡ xs
  update-none p f [] h = refl
  update-none p f (x ∷ xs) h = ground (arith, update-none p f xs)

  -- Where one row passes the test and is replaced, a count changes by that row.
  pub count-update_one :
      (p q : A → Bool) (new : A) (xs : List A) {old : A}
      → find p xs ≡ some old
      → count_where p xs ≤ 1
      → count_where q (update_where p (λ _. new) xs) + (if q old then 1 else 0)
        ≡ count_where q xs + (if q new then 1 else 0)
  count-update_one p q new [] h c = cc
  count-update_one p q new (x ∷ xs) {old} h c = elim (Bool-cases (p x)) [
    | inl hit ↦
        let same : x ≡ old = some-injective x old (rw hit at h) in
        rw (hit, ← same, update-none p (λ _. new) xs (ground (arith, hit))) (omega arith)
    | inr miss ↦
        rw miss (omega (arith, count-update_one p q new xs (rw miss at h) (ground (arith, miss))))
  ]

  -- A count is kept by an update that keeps its test.
  pub count-update_same :
      (p q : A → Bool) (f : A → A)
      → ((x : A) → q (f x) ≡ q x)
      → (xs : List A) → count_where q (update_where p f xs) ≡ count_where q xs
  count-update_same p q f keep [] = refl
  count-update_same p q f keep (x ∷ xs) = elim (Bool-cases (p x)) [
    | inl hit ↦ rw (hit, keep x, count-update_same p q f keep xs) refl
    | inr miss ↦ rw (miss, count-update_same p q f keep xs) refl
  ]

  pub count-filter :
      (p q : A → Bool) (xs : List A)
      → count_where q (filter p xs) ≡ count_where (λ x. p x && q x) xs
  count-filter p q [] = refl
  count-filter p q (x ∷ xs) = ground (arith, count-filter p q xs)

pub length-map {ℓ κ} :
    {A : Type ℓ} {B : Type κ} (f : A → B) (xs : List A) → length (map f xs) ≡ length xs
length-map f [] = refl
length-map f (x ∷ xs) = omega (arith, length-map f xs)
