-- ===== src/Agents/Approval/Once.antt =====
-- An approval is used once.
use campus_pilots.Base.{
  ℕ, ◌≤◌, Bool, true, false, some, List, [], ◌∷◌, ◌≡◌, refl, sym, ap, ◌∙◌, ◌⊎◌, inl, inr, arith,
  Bool-cases, ==→eq, ==_refl, find, find-hit, any-find, find-update_where, find-update_where_kept,
  update_where, subst,
}
use mathlib.Core.Option.{some-injective}
use campus_pilots.Agents.Approval.{
  ApprovalRequest, Tables, Request, creating, deciding, consuming, expiring, consumed, has_id,
  is_approved, spent, is_due, lapsed, new_approval, serve, history, uses, times_used,
}
use campus_pilots.Agents.Approval.Steps.{
  decide-cases, consume-cases, create-cases, expire_lem, find-approval,
}

-- The row of an approval that was used.
abbrev IsSpent : ℕ → List ApprovalRequest → Type 0
IsSpent approval_id rows =
    (a : ApprovalRequest) × (find (has_id approval_id) rows ≡ some a) × (a.status ≡ consumed)

kept :
    (approval_id : ℕ) (q : ApprovalRequest → Bool) (f : ApprovalRequest → ApprovalRequest)
    (rows new : List ApprovalRequest) (a : ApprovalRequest)
    → ((b : ApprovalRequest) → has_id approval_id (f b) ≡ has_id approval_id b)
    → find (has_id approval_id) rows ≡ some a
    → a.status ≡ consumed
    → q a ≡ false
    → new ≡ update_where q f rows
    → IsSpent approval_id new
kept approval_id q f rows new a same found status untouched e = (
  a,
  ap (find (has_id approval_id)) e
      ∙ find-update_where_kept (has_id approval_id) q f same rows found untouched,
  status,
)

serve-IsSpent :
    (approval_id now : ℕ) (r : Request) (w : Tables)
    → IsSpent approval_id w.approvals
    → IsSpent approval_id (serve now r w).1.approvals
serve-IsSpent approval_id now (creating ttl n) w (a, found, status) =
    elim (create-cases now ttl n w) [
      | inl same ↦ rw same (a, found, status)
      | inr (fresh, added) ↦
          let other : has_id n.id a ≡ false =
            any-find (has_id n.id) w.approvals a fresh (has_id approval_id) found in
          let hit : has_id approval_id a ≡ true = find-hit (has_id approval_id) w.approvals found in
          let new : has_id approval_id (new_approval ttl now n) ≡ false =
            ground (arith, other, hit) in
          (a, ap (find (has_id approval_id)) added ∙ rw new found, status)
    ]
serve-IsSpent approval_id now (deciding id run user d hash) w (a, found, status) =
    elim (decide-cases now id run user d hash w) [
      | inl same ↦ rw same (a, found, status)
      | inr (b, c, h, good, changed) ↦
          kept approval_id _ _ w.approvals _ a (λ x. refl) found status (ground (arith, status))
            changed
    ]
serve-IsSpent approval_id now (consuming p) w (a, found, status) = elim (consume-cases now p w) [
  | inl (no_use, same) ↦ rw same (a, found, status)
  | inr (b, c, h, good, used, changed) ↦
      kept approval_id _ _ w.approvals _ a (λ x. refl) found status (ground (arith, status)) changed
]
serve-IsSpent approval_id now expiring w (a, found, status) =
    kept approval_id (is_due now) lapsed w.approvals _ a (λ x. refl) found status
      (ground (arith, status)) (expire_lem now w)

-- A request that uses an approval finds it unspent and leaves it spent.
used-IsSpent :
    (approval_id now : ℕ) (r : Request) (w : Tables)
    → uses approval_id r (serve now r w).0 ≡ true
    → IsSpent approval_id (serve now r w).1.approvals × ¬ IsSpent approval_id w.approvals
used-IsSpent approval_id now (creating ttl n) w h = cc
used-IsSpent approval_id now (deciding id run user d hash) w h = cc
used-IsSpent approval_id now expiring w h = cc
used-IsSpent approval_id now (consuming p) w h = elim (consume-cases now p w) [
  | inl (no_use, same) ↦ (let k = rw no_use at h in cc)
  | inr (a, c, row, good, used, changed) ↦
      let id_is : p.approval_id ≡ approval_id = ==→eq p.approval_id approval_id (rw used at h) in
      let found : find (has_id approval_id) w.approvals ≡ some a =
        subst (λ n. find (has_id n) w.approvals ≡ some a) id_is
          (find-approval p.approval_id w a c row) in
      let open_row : is_approved a.status ≡ true = ground (arith, good) in
      (
        (
          spent now a,
          ap (find (has_id approval_id)) changed
              ∙ find-update_where (has_id approval_id) _ (spent now) (λ x. refl) w.approvals found
                  (rw (==_refl a.id, open_row) refl),
          refl,
        ),
        λ (b, e, status).
            let same : a ≡ b = some-injective a b (sym found ∙ e) in
            let shut : is_approved b.status ≡ false = rw status refl in
            (let k = subst (λ (x : ApprovalRequest). is_approved x.status ≡ true) same open_row in
              cc),
      )
]

times_used-IsSpent :
    (approval_id : ℕ) (requests : List (ℕ × Request)) (w : Tables)
    → (times_used approval_id requests w ≡ 0)
      ⊎ ((times_used approval_id requests w ≡ 1)
          × IsSpent approval_id (history requests w).approvals)
times_used-IsSpent approval_id [] w = inl refl
times_used-IsSpent approval_id ((now, r) ∷ older) w =
    let before = history older w in
    elim (Bool-cases (uses approval_id r (serve now r before).0)) [
      | inl in_use ↦
          let (is_spent, was_open) = used-IsSpent approval_id now r before in_use in
          elim (times_used-IsSpent approval_id older w) [
            | inl never ↦ inr (rw (in_use, never) refl, is_spent)
            | inr (once, spent_row) ↦ absurd (was_open spent_row)
          ]
      | inr no_use ↦ elim (times_used-IsSpent approval_id older w) [
        | inl never ↦ inl (rw (no_use, never) refl)
        | inr (once, spent_row) ↦
            inr (rw (no_use, once) refl, serve-IsSpent approval_id now r before spent_row)
      ]
    ]

-- Whatever requests are served, in any order and at any times, an approval is used once at most.
pub times_used-once :
    (approval_id : ℕ) (requests : List (ℕ × Request)) (w : Tables)
    → times_used approval_id requests w ≤ 1
times_used-once approval_id requests w = omega (arith, times_used-IsSpent approval_id requests w)
