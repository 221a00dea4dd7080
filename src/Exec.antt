-- ===== src/Exec.antt =====
-- Service methods as actions on the tables that a database session sees. What a method wrote before
-- it raised is in the state beside the error; `atomically` takes it back, as `session.begin()` does.
pub mod Keeps
use campus_pilots.Base.{Bool, true, false, Option, none, some, ◌≡◌, refl, ◌⊎◌, inl, inr}
use campus_pilots.Errors.{AppError}

pub data Result {ℓ} (A : Type ℓ) : Type ℓ where
  ok : A → Result A
  raised : AppError → Result A

abbrev pub Exec {ℓ κ} : Type ℓ → Type κ → Type (ℓ ⊔ κ)
Exec S A = S → Result A × S

module _ {ℓ κ} {S : Type ℓ} {A : Type κ} where
  abbrev pub pure : A → Exec S A
  pure a s = (ok a, s)

  abbrev pub raise : AppError → Exec S A
  raise e s = (raised e, s)

  abbrev pub gets : (S → A) → Exec S A
  gets f s = (ok (f s), s)

  -- A pure call that may raise.
  abbrev pub lift : Result A → Exec S A
  lift r s = (r, s)

  -- `if x is None: raise e`
  abbrev pub require : Option A → AppError → Exec S A
  require none e = raise e
  require (some a) e = pure a

  abbrev pub settle : Result A → S → S → Result A × S
  settle (ok a) written before = (ok a, written)
  settle (raised e) written before = (raised e, before)

  -- `async with session.begin()`: commit on a normal exit, roll back when an exception leaves.
  abbrev pub atomically : Exec S A → Exec S A
  atomically m s = let (r, written) = m s in settle r written s

module _ {ℓ} {S : Type ℓ} where
  abbrev pub modify : (S → S) → Exec S (Unit {0})
  modify f s = (ok tt, f s)

  -- `if failing: raise e`
  abbrev pub raise_if : Bool → AppError → Exec S (Unit {0})
  raise_if true e s = (raised e, s)
  raise_if false e s = (ok tt, s)

module _ {ℓ κ μ} {S : Type ℓ} {A : Type κ} {B : Type μ} where
  abbrev pub resume : Result A → S → (A → Exec S B) → Result B × S
  resume (ok a) s f = f a s
  resume (raised e) s f = (raised e, s)

  infixl 5 ◌>>=◌ ◌>>◌
  abbrev pub ◌>>=◌ : Exec S A → (A → Exec S B) → Exec S B
  ◌>>=◌ m f s = let (r, s') = m s in resume r s' f

  abbrev pub ◌>>◌ : Exec S A → Exec S B → Exec S B
  m >> n = m >>= λ _. n

-- A pure call that may raise, and what follows where it returns.
module _ {ℓ κ} {A : Type ℓ} {B : Type κ} where
  infixr 4 ◌|>◌
  abbrev pub ◌|>◌ : Result A → (A → Result B) → Result B
  ◌|>◌ (ok a) f = f a
  ◌|>◌ (raised e) f = raised e

-- To split on an outcome and keep the equation.
pub Result-cases {ℓ} :
    {A : Type ℓ} (r : Result A) → ((a : A) × (r ≡ ok a)) ⊎ ((e : AppError) × (r ≡ raised e))
Result-cases (ok a) = inl (a, refl)
Result-cases (raised e) = inr (e, refl)
