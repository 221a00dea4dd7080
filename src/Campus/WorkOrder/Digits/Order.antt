-- ===== src/Campus/WorkOrder/Digits/Order.antt =====
-- The order of the texts of numbers is that of the numbers.
use campus_pilots.Base.{
  ℕ, ◌+◌, ◌-◌, ◌≤◌, true, List, [], ◌∷◌, ◌++◌, ◌≡◌, refl, sym, ap, ◌∙◌, arith, length, ==→eq,
  ==_refl, ltb,
}
use campus_pilots.Campus.WorkOrder.{OrderNo}
use campus_pilots.Campus.WorkOrder.Digits.{
  is_four_digits, matches, lex_ltb, drop, last_four, int_from, four_digits,
}

-- What `int` reads at the end of a number.
abbrev pub number : OrderNo → ℕ
number n = int_from 0 (last_four n)

matches-split :
    (p n : List ℕ)
    → matches p n ≡ true
    → (rest : List ℕ) × (n ≡ p ++ rest) × (is_four_digits rest ≡ true)
unfolding matches
matches-split [] n h = (n, refl, h)
matches-split (x ∷ p) [] h = cc
matches-split (x ∷ p) (y ∷ n) h =
    let same : x ≡ y = ==→eq x y (ground (arith, h)) in
    let (rest, e, four) = matches-split p n (ground (arith, h)) in
    (rest, ap (λ z. z ∷ n) (sym same) ∙ ap (λ t. x ∷ t) e, four)

pub matches-append : (p rest : List ℕ) → is_four_digits rest ≡ true → matches p (p ++ rest) ≡ true
unfolding matches
matches-append [] rest h = h
matches-append (x ∷ p) rest h = rw (==_refl x, matches-append p rest h) refl

lex-append : (p x y : List ℕ) → lex_ltb (p ++ x) (p ++ y) ≡ lex_ltb x y
unfolding lex_ltb
lex-append [] x y = refl
lex-append (a ∷ p) x y = ground (arith, lex-append p x y)

length-append : (p x : List ℕ) → length (p ++ x) ≡ length p + length x
length-append [] x = omega arith
length-append (a ∷ p) x = omega (arith, length-append p x)

drop-append : (p x : List ℕ) → drop (length p) (p ++ x) ≡ x
drop-append [] x = refl
drop-append (a ∷ p) x = drop-append p x

last_four-append :
    (p : List ℕ) (a b c d : ℕ) → last_four (p ++ (a ∷ b ∷ c ∷ d ∷ [])) ≡ a ∷ b ∷ c ∷ d ∷ []
last_four-append p a b c d =
    let size : length (p ++ (a ∷ b ∷ c ∷ d ∷ [])) - 4 ≡ length p =
      omega (arith, length-append p (a ∷ b ∷ c ∷ d ∷ [])) in
    ap (λ n. drop n (p ++ (a ∷ b ∷ c ∷ d ∷ []))) size ∙ drop-append p (a ∷ b ∷ c ∷ d ∷ [])

pub record FourDigits (rest : List ℕ) : Type 0 where
  pub a : ℕ
  pub b : ℕ
  pub c : ℕ
  pub d : ℕ
  pub shape : rest ≡ a ∷ b ∷ c ∷ d ∷ []
  pub bounds : (48 ≤ a) × (a ≤ 57) × (48 ≤ b) × (b ≤ 57) × (48 ≤ c) × (c ≤ 57) × (48 ≤ d) × (d ≤ 57)

pub four-FourDigits : (rest : List ℕ) → is_four_digits rest ≡ true → FourDigits rest
four-FourDigits (a ∷ b ∷ c ∷ d ∷ []) h = record {
  a = a;
  b = b;
  c = c;
  d = d;
  shape = refl;
  bounds = (
    ground (arith, h),
    ground (arith, h),
    ground (arith, h),
    ground (arith, h),
    ground (arith, h),
    ground (arith, h),
    ground (arith, h),
    ground (arith, h),
  );
}
four-FourDigits [] h = cc
four-FourDigits (a ∷ []) h = cc
four-FourDigits (a ∷ b ∷ []) h = cc
four-FourDigits (a ∷ b ∷ c ∷ []) h = cc
four-FourDigits (a ∷ b ∷ c ∷ d ∷ e ∷ rest) h = cc

-- Texts of four digits are ordered as their numbers.
lex-four :
    (x y : List ℕ) → FourDigits x → FourDigits y → lex_ltb x y ≡ ltb (int_from 0 x) (int_from 0 y)
unfolding lex_ltb
lex-four x y f g =
    let (fa, fa', fb, fb', fc, fc', fd, fd') = f.bounds in
    let (ga, ga', gb, gb', gc, gc', gd, gd') = g.bounds in rw (f.shape, g.shape) (ground arith)

pub four_digits-number : (n : ℕ) → n ≤ 9999 → int_from 0 (four_digits n) ≡ n
four_digits-number n h = omega arith

pub four_digits-is_four : (n : ℕ) → is_four_digits (four_digits n) ≡ true
four_digits-is_four n = ground arith

pub number-append : (p rest : List ℕ) → FourDigits rest → number (p ++ rest) ≡ int_from 0 rest
number-append p rest f =
    ap (λ r. number (p ++ r)) f.shape
    ∙ (ap (int_from 0) (last_four-append p f.a f.b f.c f.d) ∙ ap (int_from 0) (sym f.shape))

-- Matching numbers are ordered as what `int` reads at their ends.
pub lex-number :
    (p m n : OrderNo)
    → matches p m ≡ true
    → matches p n ≡ true
    → lex_ltb m n ≡ ltb (number m) (number n)
lex-number p m n h k =
    let (x, mx, fx) = matches-split p m h in
    let (y, ny, fy) = matches-split p n k in
    let f = four-FourDigits x fx in
    let g = four-FourDigits y fy in
    rw (mx, ny) (rw (lex-append p x y, number-append p x f, number-append p y g) (lex-four x y f g))
