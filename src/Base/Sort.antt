-- ===== src/Base/Sort.antt =====
-- Python's `sorted`: a stable sort by insertion. `late a b` tells that `a` must come after `b`.
use Prim.Native.Nat.{◌+◌}
use mathlib.Core.Bool.{Bool}
use mathlib.Core.List.{List, [], ◌∷◌}
use mathlib.Core.Path.{◌≡◌, refl}
use mathlib.Core.Logic.{inl, inr}
use native.Mathlib.Omega.{arith}
use campus_pilots.Base.Tests.{if◌then◌else◌, Bool-cases}
use campus_pilots.Base.Lists.{count_where, length}

module _ {ℓ} {A : Type ℓ} where
  abbrev insert : (A → A → Bool) → A → List A → List A
  insert late a [] = a ∷ []
  insert late a (b ∷ bs) = let rest = insert late a bs in if late a b then b ∷ rest else a ∷ b ∷ bs

  unfoldable pub sort : (A → A → Bool) → List A → List A
  sort late [] = []
  sort late (a ∷ rest) = insert late a (sort late rest)

  insert-count :
      (late : A → A → Bool) (p : A → Bool) (a : A) (xs : List A)
      → count_where p (insert late a xs) ≡ count_where p (a ∷ xs)
  insert-count late p a [] = refl
  insert-count late p a (b ∷ bs) = elim (Bool-cases (late a b)) [
    | inl e ↦ rw e (omega (arith, insert-count late p a bs))
    | inr e ↦ rw e refl
  ]

  -- A sort keeps what every test counts.
  pub sort-count :
      (late : A → A → Bool) (p : A → Bool) (xs : List A)
      → count_where p (sort late xs) ≡ count_where p xs
  unfolding sort
  sort-count late p [] = refl
  sort-count late p (a ∷ rest) =
      omega (arith, insert-count late p a (sort late rest), sort-count late p rest)

  insert-length :
      (late : A → A → Bool) (a : A) (xs : List A) → length (insert late a xs) ≡ length xs + 1
  insert-length late a [] = refl
  insert-length late a (b ∷ bs) = elim (Bool-cases (late a b)) [
    | inl e ↦ rw e (omega (arith, insert-length late a bs))
    | inr e ↦ rw e (omega arith)
  ]

  pub sort-length : (late : A → A → Bool) (xs : List A) → length (sort late xs) ≡ length xs
  unfolding sort
  sort-length late [] = refl
  sort-length late (a ∷ rest) =
      omega (arith, insert-length late a (sort late rest), sort-length late rest)
