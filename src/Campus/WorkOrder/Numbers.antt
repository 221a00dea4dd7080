-- ===== src/Campus/WorkOrder/Numbers.antt =====
-- Public order numbers are never issued twice.
use campus_pilots.Base.{
  ℕ, ◌≤◌, true, false, Option, none, some, List, [], ◌∷◌, ◌++◌, ◌≡◌, ◌≢◌, refl, sym, ap, ◌∙◌, inl,
  inr, arith, All, All-map, Bool-cases, subst⁻¹, ltb,
}
use campus_pilots.Exec.{Result, ok, raised}
use campus_pilots.Campus.WorkOrder.{OrderNo, WorkOrder}
use campus_pilots.Campus.WorkOrder.Digits.{
  dashed_prefix, matches, lex_ltb, last_four, int_from, four_digits,
}
use campus_pilots.Campus.WorkOrder.Store.{latest, greater, next_number, allocate_order_no}
use campus_pilots.Campus.WorkOrder.Digits.Order.{
  number, matches-append, number-append, lex-number, four_digits-number, four_digits-is_four,
  four-FourDigits,
}

-- No matching order has a greater number than the latest, and where there is no latest none matches.
abbrev Covers : List ℕ → Option OrderNo → WorkOrder → Type 0
Covers p none o = matches p o.order_no ≡ false
Covers p (some m) o = matches p o.order_no ≡ true → number o.order_no ≤ number m

abbrev IsLatest : List ℕ → Option OrderNo → Type 0
IsLatest p none = Unit
IsLatest p (some m) = matches p m ≡ true

greater-Covers :
    (p : List ℕ) (n : OrderNo) (rest : Option OrderNo) (o : WorkOrder)
    → matches p n ≡ true
    → IsLatest p rest
    → Covers p rest o
    → Covers p (some (greater n rest)) o
greater-Covers p n none o h l c k = absurd (ground (arith, c, k))
greater-Covers p n (some m) o h l c k =
    let order = lex-number p m n l h in
    elim (Bool-cases (lex_ltb m n)) [
      | inl below ↦ rw below (ground (arith, c k, order, below))
      | inr above ↦ rw above (c k)
    ]

greater-covers_own :
    (p : List ℕ) (n : OrderNo) (rest : Option OrderNo)
    → matches p n ≡ true
    → IsLatest p rest
    → (number n ≤ number (greater n rest)) × (matches p (greater n rest) ≡ true)
greater-covers_own p n none h l = (omega arith, h)
greater-covers_own p n (some m) h l =
    let order = lex-number p m n l h in
    elim (Bool-cases (lex_ltb m n)) [
      | inl below ↦ rw below (omega arith, h)
      | inr above ↦ rw above (ground (arith, order, above), l)
    ]

Covers-miss :
    (p : List ℕ) (l : Option OrderNo) (o : WorkOrder) → matches p o.order_no ≡ false → Covers p l o
Covers-miss p none o h = h
Covers-miss p (some m) o h = λ k. absurd (ground (arith, h, k))

latest-Covers :
    (p : List ℕ) (orders : List WorkOrder)
    → IsLatest p (latest p orders) × All (Covers p (latest p orders)) orders
unfolding latest
latest-Covers p [] = (tt, tt)
latest-Covers p (o ∷ os) =
    let (is_latest, covered) = latest-Covers p os in
    elim (Bool-cases (matches p o.order_no)) [
      | inl hit ↦
          let (own, matching) = greater-covers_own p o.order_no (latest p os) hit is_latest in
          let top : latest p (o ∷ os) ≡ some (greater o.order_no (latest p os)) = rw hit refl in
          subst⁻¹ (λ l. IsLatest p l × All (Covers p l) (o ∷ os)) top
            (
              matching,
              (
                (λ k. own),
                All-map (Covers p (latest p os)) _
                    (λ o' c. greater-Covers p o.order_no (latest p os) o' hit is_latest c) os
                    covered,
              ),
            )
      | inr miss ↦
          let top : latest p (o ∷ os) ≡ latest p os = rw miss refl in
          subst⁻¹ (λ l. IsLatest p l × All (Covers p l) (o ∷ os)) top
            (is_latest, (Covers-miss p (latest p os) o miss, covered))
    ]

fresh_number :
    (p : List ℕ) (l : Option OrderNo) (n : OrderNo) (o : WorkOrder)
    → matches p n ≡ true
    → number n ≡ next_number l
    → Covers p l o
    → o.order_no ≢ n
fresh_number p none n o h e c same = absurd (ground (arith, c, h, ap (matches p) same))
fresh_number p (some m) n o h e c same =
    absurd (omega (arith, e, c (ap (matches p) same ∙ h), ap number same))

value_of : Result OrderNo → OrderNo
value_of (ok n) = n
value_of (raised e) = []

ok-injective : (m n : OrderNo) → ◌≡◌ {A = Result OrderNo} (ok m) (ok n) → m ≡ n
unfolding value_of
ok-injective m n h = ap value_of h

next-positive : (l : Option OrderNo) → 1 ≤ next_number l
next-positive none = omega arith
next-positive (some n) = omega arith

-- A number that is issued is "WO-", the day, a dash and the four digits of a sequence from 1 to 9999,
-- whose text reads as that sequence again, and no stored order has it.
pub allocate_order_no-fresh :
    (date_part : List ℕ) (orders : List WorkOrder) (n : OrderNo)
    → allocate_order_no date_part orders ≡ ok n
    → (sequence : ℕ) × (1 ≤ sequence)
      × (sequence ≤ 9999)
      × (n ≡ dashed_prefix date_part ++ four_digits sequence)
      × (int_from 0 (last_four n) ≡ sequence)
      × All (λ (o : WorkOrder). o.order_no ≢ n) orders
unfolding allocate_order_no
allocate_order_no-fresh date_part orders n h =
    let p = dashed_prefix date_part in
    let l = latest p orders in
    elim (Bool-cases (ltb 9999 (next_number l))) [
      | inl over ↦ (let k = rw over at h in cc)
      | inr fits ↦
          let sequence = next_number l in
          let four = four_digits-is_four sequence in
          let small : sequence ≤ 9999 = ground (arith, fits) in
          let text : p ++ four_digits sequence ≡ n = ok-injective _ n (rw fits at h) in
          let reads : number n ≡ sequence =
            ap number (sym text)
            ∙ (number-append p (four_digits sequence) (four-FourDigits (four_digits sequence) four)
                ∙ four_digits-number sequence small) in
          let matching : matches p n ≡ true =
            ap (matches p) (sym text) ∙ matches-append p (four_digits sequence) four in
          (
            sequence,
            next-positive l,
            small,
            sym text,
            reads,
            All-map (Covers p l) _ (λ o c. fresh_number p l n o matching reads c) orders
                (latest-Covers p orders).1,
          )
    ]
