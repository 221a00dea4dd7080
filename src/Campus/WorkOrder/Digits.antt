-- ===== src/Campus/WorkOrder/Digits.antt =====
-- The texts of order numbers, as `allocate_order_no` reads and writes them
-- (backend/app/modules/campus_service/repositories.py). A text is the list of its code points.
pub mod Order
use campus_pilots.Base.{
  ℕ, zero, suc, ◌+◌, ◌*◌, ◌-◌, ◌/◌, ◌%◌, Bool, true, false, ◌&&◌, ◌||◌, List, [], ◌∷◌, ◌++◌, ◌==◌,
  ltb, leb, length,
}

-- `f"WO-{date_part}"`, and the dash that follows in the pattern and in the number.
abbrev pub dashed_prefix : List ℕ → List ℕ
dashed_prefix date_part = b'W' ∷ b'O' ∷ b'-' ∷ (date_part ++ (b'-' ∷ []))

abbrev pub is_digit : ℕ → Bool
is_digit c = leb b'0' c && leb c b'9'

-- `[0-9]{4}$`
abbrev pub is_four_digits : List ℕ → Bool
is_four_digits (a ∷ b ∷ c ∷ d ∷ []) = is_digit a && (is_digit b && (is_digit c && is_digit d))
is_four_digits _ = false

-- `~ '^…[0-9]{4}$'`, for a prefix without special characters.
unfoldable pub matches : List ℕ → List ℕ → Bool
matches [] text = is_four_digits text
matches (x ∷ prefix) [] = false
matches (x ∷ prefix) (y ∷ text) = x == y && matches prefix text

-- The order of the texts: that of the first code points that differ.
unfoldable pub lex_ltb : List ℕ → List ℕ → Bool
lex_ltb [] [] = false
lex_ltb [] (y ∷ ys) = true
lex_ltb (x ∷ xs) [] = false
lex_ltb (x ∷ xs) (y ∷ ys) = ltb x y || (x == y && lex_ltb xs ys)

abbrev pub drop : ℕ → List ℕ → List ℕ
drop zero xs = xs
drop (suc n) [] = []
drop (suc n) (x ∷ xs) = drop n xs

-- `text[-4:]`
abbrev pub last_four : List ℕ → List ℕ
last_four text = drop (length text - 4) text

-- `int(text)`, for a text of digits, after those that were read.
abbrev pub int_from : ℕ → List ℕ → ℕ
int_from n [] = n
int_from n (c ∷ text) = int_from (n * 10 + (c - b'0')) text

-- `f"{n:04d}"`, for a number of four digits at most.
abbrev pub four_digits : ℕ → List ℕ
four_digits n =
    (b'0' + n / 1000 % 10) ∷ (b'0' + n / 100 % 10) ∷ (b'0' + n / 10 % 10) ∷ (b'0' + n % 10) ∷ []
