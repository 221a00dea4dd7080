-- ===== src/Campus/WorkOrder/Store.antt =====
-- The queries of `WorkOrderRepository`, `WorkOrderEventRepository` and `CampusReferenceRepository`
-- (backend/app/modules/campus_service/repositories.py).
use campus_pilots.Base.{
  ℕ, ◌+◌, String, Bool, ◌&&◌, ◌||◌, Option, none, some, List, [], ◌∷◌, ◌++◌, ◌==◌, str_eq, max,
  if◌then◌else◌, ltb, any, find, update_where,
}
use campus_pilots.Errors.{work_order_number_exhausted}
use campus_pilots.Exec.{Result, ok, raised}
use campus_pilots.Campus.WorkOrder.Digits.{
  dashed_prefix, matches, lex_ltb, last_four, int_from, four_digits,
}
use campus_pilots.Campus.WorkOrder.{
  Campus, OrderNo, WorkOrder, WorkOrderEvent, WorkOrderRating, WorkOrderScope,
}

-- `area IN (…)`, `code in …`
abbrev pub member : String → List String → Bool
member a = any (str_eq a)

abbrev pub in_scope : WorkOrder → WorkOrderScope → Bool
in_scope o sc = str_eq sc.campus_code o.campus_code && member o.dormitory_area sc.dormitory_areas

-- `any(… for scope in scopes)`
unfoldable pub in_staff_scope : WorkOrder → List WorkOrderScope → Bool
in_staff_scope o scopes = any (in_scope o) scopes

unfoldable pub visible : ℕ → List WorkOrderScope → WorkOrder → Bool
unfolding in_staff_scope
visible user_id scopes o = o.created_by == user_id || in_staff_scope o scopes

unfoldable pub get_visible_for_update :
    ℕ → ℕ → List WorkOrderScope → List WorkOrder → Option WorkOrder
unfolding visible
get_visible_for_update id user_id scopes orders =
    find (λ o. o.id == id && visible user_id scopes o) orders

unfoldable pub get_owner_for_update : ℕ → ℕ → List WorkOrder → Option WorkOrder
get_owner_for_update id user_id orders = find (λ o. o.id == id && o.created_by == user_id) orders

unfoldable pub get_rating : ℕ → List WorkOrderRating → Option WorkOrderRating
get_rating id ratings = find (λ r. r.work_order_id == id) ratings

unfoldable pub get_enabled_campus : String → List Campus → Option Campus
get_enabled_campus code campuses = find (λ c. str_eq c.code code && c.enabled) campuses

-- The flush of a changed order: the row with its id is written.
unfoldable pub write_order : WorkOrder → List WorkOrder → List WorkOrder
write_order o orders = update_where (λ x. x.id == o.id) (λ _. o) orders

-- `coalesce(max(sequence_no), 0)` over the events of one order.
unfoldable pub last_sequence : ℕ → List WorkOrderEvent → ℕ
last_sequence id [] = 0
last_sequence id (e ∷ es) =
    let rest = last_sequence id es in if e.work_order_id == id then max e.sequence_no rest else rest

unfoldable pub next_sequence : ℕ → List WorkOrderEvent → ℕ
unfolding last_sequence
next_sequence id es = last_sequence id es + 1

-- The greatest number that matches, `ORDER BY order_no DESC LIMIT 1`.
abbrev pub greater : OrderNo → Option OrderNo → OrderNo
greater n none = n
greater n (some m) = if lex_ltb m n then n else m

unfoldable pub latest : List ℕ → List WorkOrder → Option OrderNo
latest prefix [] = none
latest prefix (o ∷ os) =
    let rest = latest prefix os in
    if matches prefix o.order_no then some (greater o.order_no rest) else rest

-- `int(latest[-4:]) + 1 if latest is not None else 1`
abbrev pub next_number : Option OrderNo → ℕ
next_number none = 1
next_number (some n) = int_from 0 (last_four n) + 1

-- `date_part` is the day as `strftime("%Y%m%d")` writes it; the advisory lock has no effect here.
unfoldable pub allocate_order_no : List ℕ → List WorkOrder → Result OrderNo
unfolding latest matches lex_ltb
allocate_order_no date_part orders =
    let prefix = dashed_prefix date_part in
    let sequence = next_number (latest prefix orders) in
    if ltb 9999 sequence
    then raised work_order_number_exhausted
    else ok (prefix ++ four_digits sequence)
