-- ===== src/Agents/Approval/Steps.antt =====
-- What a request does to the approvals: nothing, or one change of the table.
use campus_pilots.Base.{
  ℕ, String, true, false, ◌&&◌, Option, none, some, ◌∷◌, ◌≡◌, refl, ap, ◌∙◌, ◌⊎◌, inl, inr,
  Bool-cases, Option-cases, ◌==◌, find, any, update_where, count_where,
}
use mathlib.Core.Option.{some-injective}
use campus_pilots.Errors.{tool_approval_invalid}
use campus_pilots.Exec.{ok, raised}
use campus_pilots.Agents.Approval.{
  ApprovalRequest, ToolApprovalContext, Tables, Decision, NewApproval, Presented, creating,
  deciding, consuming, expiring, has_id, with_call, is_pending, is_approved, decided, spent, is_due,
  lapsed, new_approval, mismatches, undecidable, unusable, status_of, get_for_update,
  get_tool_context, set_decision, consume_row, create, decide, consume, expire_due, serve,
}

-- A served decision leaves the tables alone, or it decides a row that it may decide.
pub decide-cases :
    (now approval_id run_id user_id : ℕ) (d : Decision) (hash : String) (w : Tables)
    → ((serve now (deciding approval_id run_id user_id d hash) w).1 ≡ w)
      ⊎ ((a : ApprovalRequest) × (c : ToolApprovalContext) × (get_for_update approval_id w
            ≡ some (a, c))
          × (undecidable a run_id user_id hash now ≡ false)
          × ((serve now (deciding approval_id run_id user_id d hash) w).1.approvals
              ≡ update_where
                  (λ (b : ApprovalRequest). has_id a.id b && is_pending b.status)
                  (decided (status_of d) user_id now)
                  w.approvals))
unfolding serve decide set_decision
decide-cases now approval_id run_id user_id d hash w =
    elim (Option-cases (get_for_update approval_id w)) [
      | inl none_there ↦ inl (rw none_there refl)
      | inr ((a, c), found) ↦ elim (Bool-cases (undecidable a run_id user_id hash now)) [
        | inl bad ↦ inl (rw (found, bad) refl)
        | inr good ↦
            elim (Bool-cases (
              count_where (λ (b : ApprovalRequest). has_id a.id b && is_pending b.status)
                w.approvals
              == 1)) [
                | inl one ↦ inr (a, c, found, good, rw (found, good, one) refl)
                | inr other ↦ inl (rw (found, good, other) refl)
              ]
      ]
    ]

-- A served use of an approval raises and leaves the tables alone, or it spends a usable row.
pub consume-cases :
    (now : ℕ) (p : Presented) (w : Tables)
    → (((serve now (consuming p) w).0 ≡ raised tool_approval_invalid)
        × ((serve now (consuming p) w).1 ≡ w))
      ⊎ ((a : ApprovalRequest) × (c : ToolApprovalContext) × (get_for_update p.approval_id w
            ≡ some (a, c))
          × (unusable a c p now ≡ false)
          × ((serve now (consuming p) w).0 ≡ ok true)
          × ((serve now (consuming p) w).1.approvals
              ≡ update_where
                  (λ (b : ApprovalRequest). has_id a.id b && is_approved b.status)
                  (spent now)
                  w.approvals))
unfolding serve consume consume_row
consume-cases now p w = elim (Option-cases (get_for_update p.approval_id w)) [
  | inl none_there ↦ inl (rw none_there (refl, refl))
  | inr ((a, c), found) ↦ elim (Bool-cases (unusable a c p now)) [
    | inl bad ↦ inl (rw (found, bad) (refl, refl))
    | inr good ↦
        elim (Bool-cases (
          count_where (λ (b : ApprovalRequest). has_id a.id b && is_approved b.status) w.approvals
          == 1)) [
            | inl one ↦
                inr (a, c, found, good, rw (found, good, one) refl, rw (found, good, one) refl)
            | inr other ↦ inl (rw (found, good, other) (refl, refl))
          ]
  ]
]

-- A served creation leaves the tables alone, or it adds a pending row with a new identifier.
pub create-cases :
    (now ttl : ℕ) (n : NewApproval) (w : Tables)
    → ((serve now (creating ttl n) w).1 ≡ w)
      ⊎ ((any (has_id n.id) w.approvals ≡ false)
          × ((serve now (creating ttl n) w).1.approvals ≡ new_approval ttl now n ∷ w.approvals))
unfolding serve create
create-cases now ttl n w = elim (Bool-cases (mismatches n (get_tool_context n.tool_call_id w))) [
  | inl bad ↦ inl (rw bad refl)
  | inr good ↦ elim (Bool-cases (any (has_id n.id) w.approvals)) [
    | inl taken ↦ inl (rw (good, taken) refl)
    | inr fresh ↦ inr (fresh, rw (good, fresh) refl)
  ]
]

pub expire_lem :
    (now : ℕ) (w : Tables)
    → (serve now expiring w).1.approvals ≡ update_where (is_due now) lapsed w.approvals
unfolding serve expire_due
expire_lem now w = refl

with_call-found :
    (a b : ApprovalRequest) (o : Option ToolApprovalContext) (c : ToolApprovalContext)
    → with_call a o ≡ some (b, c)
    → a ≡ b
with_call-found a b none c h = cc
with_call-found a b (some d) c h =
    ap (λ (x : ApprovalRequest × ToolApprovalContext). x.0) (some-injective (a, d) (b, c) h)

pub find-approval :
    (approval_id : ℕ) (w : Tables) (a : ApprovalRequest) (c : ToolApprovalContext)
    → get_for_update approval_id w ≡ some (a, c)
    → find (has_id approval_id) w.approvals ≡ some a
unfolding get_for_update
find-approval approval_id w a c h = elim (Option-cases (find (has_id approval_id) w.approvals)) [
  | inl e ↦ (let k = rw e at h in cc)
  | inr (b, e) ↦
      let same : b ≡ a = with_call-found b a (get_tool_context b.tool_call_id w) c (rw e at h) in
      e ∙ ap some same
]
