-- ===== src/Agents/Approval/Granted.antt =====
-- An approval is used only where its user has approved the same arguments in time.
use mathlib.Core.Option.{some-injective}
use campus_pilots.Base.{
  ℕ, ◌+◌, ◌<◌, String, Bool, true, false, ◌&&◌, some, List, [], ◌∷◌, ◌≡◌, refl, sym, ap, ◌∙◌, ◌⊎◌,
  inl, inr, arith, Bool-cases, ◌==◌, ltb, ==→eq, ==_refl, eq_iff, eq_refl, str_eq, find, find-hit,
  find-before_update, any, update_where, subst,
}
use campus_pilots.Exec.{ok}
use campus_pilots.Agents.Approval.{
  ApprovalRequest, Tables, Decision, approve, reject, NewApproval, Presented, Request, creating,
  deciding, consuming, expiring, has_id, is_pending, is_approved, decided, spent, is_due, lapsed,
  new_approval, undecidable, status_of, serve, history,
}
use campus_pilots.Agents.Approval.Steps.{
  decide-cases, consume-cases, create-cases, expire_lem, find-approval,
}

-- A request that created the approval of a user for some arguments, with this expiry.
abbrev pub creates : ℕ → ℕ → String → ℕ → ℕ × Request → Bool
creates id user_id hash expires_at (now, creating ttl n) =
    n.id == id
    && (n.user_id == user_id && (str_eq n.arguments_hash hash && now + ttl == expires_at))
creates id user_id hash expires_at (now, _) = false

-- A request by which the user approved the approval for some arguments, before the expiry.
abbrev pub grants : ℕ → ℕ → String → ℕ → ℕ × Request → Bool
grants id user_id hash expires_at (now, deciding approval_id run_id user approve presented) =
    approval_id == id && (user == user_id && (str_eq hash presented && ltb now expires_at))
grants id user_id hash expires_at (now, _) = false

-- Where the row comes from.
abbrev IsExplained : List (ℕ × Request) → ApprovalRequest → Type 0
IsExplained rs a =
    (any (creates a.id a.user_id a.arguments_hash a.expires_at) rs ≡ true)
    × ((is_approved a.status ≡ false)
        ⊎ (any (grants a.id a.user_id a.arguments_hash a.expires_at) rs ≡ true))

abbrev AreExplained : List (ℕ × Request) → List ApprovalRequest → Type 0
AreExplained rs rows =
    (id : ℕ) (a : ApprovalRequest) → find (has_id id) rows ≡ some a → IsExplained rs a

later :
    (x : ℕ × Request) (rs : List (ℕ × Request)) (a : ApprovalRequest)
    → IsExplained rs a
    → IsExplained (x ∷ rs) a
later x rs a (c, inl open_row) = (ground (arith, c), inl open_row)
later x rs a (c, inr granted) = (ground (arith, c), inr (ground (arith, granted)))

-- An update that does not approve keeps the explanations.
updated :
    (rs : List (ℕ × Request)) (q : ApprovalRequest → Bool) (f : ApprovalRequest → ApprovalRequest)
    (rows : List ApprovalRequest)
    → ((id : ℕ) (b : ApprovalRequest) → has_id id (f b) ≡ has_id id b)
    → ((id : ℕ) (b : ApprovalRequest)
        → find (has_id id) rows ≡ some b
        → q b ≡ true
        → IsExplained rs b
        → IsExplained rs (f b))
    → AreExplained rs rows
    → AreExplained rs (update_where q f rows)
updated rs q f rows same step h id a found =
    let (b, before, changed) = find-before_update (has_id id) q f (same id) rows found in
    subst (IsExplained rs) changed (elim (Bool-cases (q b)) [
      | inl e ↦ rw e (step id b before e (h id b before))
      | inr e ↦ rw e (h id b before)
    ])

-- The row that a decision may change is the row that it found.
same_row :
    (id i : ℕ) (rows : List ApprovalRequest) (x b : ApprovalRequest)
    → find (has_id id) rows ≡ some b
    → find (has_id i) rows ≡ some x
    → has_id b.id x ≡ true
    → b ≡ x
same_row id i rows x b found there hit =
    let at_b = ==→eq b.id id (find-hit (has_id id) rows found) in
    let at_x = ==→eq x.id i (find-hit (has_id i) rows there) in
    let both = ==→eq x.id b.id hit in
    let same_id : id ≡ i = omega (arith, at_b, at_x, both) in
    some-injective b x (sym found ∙ (ap (λ n. find (has_id n) rows) same_id ∙ there))

decided-IsExplained :
    (now id run user : ℕ) (d : Decision) (hash : String) (rs : List (ℕ × Request))
    (b : ApprovalRequest)
    → has_id id b ≡ true
    → undecidable b run user hash now ≡ false
    → IsExplained ((now, deciding id run user d hash) ∷ rs) b
    → IsExplained ((now, deciding id run user d hash) ∷ rs) (decided (status_of d) user now b)
decided-IsExplained now id run user reject hash rs b hit good (made, granted) = (made, inl refl)
decided-IsExplained now id run user approve hash rs b hit good (made, granted) =
    (made, inr (ground (arith, hit, good)))

all_later :
    (x : ℕ × Request) (rs : List (ℕ × Request)) (rows : List ApprovalRequest)
    → AreExplained rs rows
    → AreExplained (x ∷ rs) rows
all_later x rs rows h id a found = later x rs a (h id a found)

created-IsExplained :
    (now ttl : ℕ) (n : NewApproval) (rs : List (ℕ × Request))
    → IsExplained ((now, creating ttl n) ∷ rs) (new_approval ttl now n)
created-IsExplained now ttl n rs = (
  rw (==_refl n.id, ==_refl n.user_id, eq_refl n.arguments_hash, ==_refl (now + ttl)) refl,
  inl refl,
)

added-AreExplained :
    (rs : List (ℕ × Request)) (new : ApprovalRequest) (rows : List ApprovalRequest)
    → IsExplained rs new
    → AreExplained rs rows
    → AreExplained rs (new ∷ rows)
added-AreExplained rs new rows k h id a found = elim (Bool-cases (has_id id new)) [
  | inl hit ↦ subst (IsExplained rs) (some-injective new a (rw hit at found)) k
  | inr miss ↦ h id a (rw miss at found)
]

module _ (now : ℕ) (rs : List (ℕ × Request)) (w : Tables) (h : AreExplained rs w.approvals) where
  decide-AreExplained :
      (id run user : ℕ) (d : Decision) (hash : String)
      → AreExplained
          ((now, deciding id run user d hash) ∷ rs)
          (serve now (deciding id run user d hash) w).1.approvals
  decide-AreExplained id run user d hash =
      let rs' : List (ℕ × Request) = (now, deciding id run user d hash) ∷ rs in
      let h' : AreExplained rs' w.approvals =
        all_later (now, deciding id run user d hash) rs w.approvals h in
      elim (decide-cases now id run user d hash w) [
        | inl same ↦ rw same h'
        | inr (b, c, row, good, changed) ↦
            let found = find-approval id w b c row in
            rw changed (
              updated rs' (λ (x : ApprovalRequest). has_id b.id x && is_pending x.status)
                (decided (status_of d) user now) w.approvals (λ i x. refl)
                (λ i x there hit k.
                  let same : b ≡ x =
                    same_row id i w.approvals x b found there (ground (arith, hit)) in
                  subst
                    (λ (y : ApprovalRequest). IsExplained rs' (decided (status_of d) user now y))
                    same
                    (decided-IsExplained now id run user d hash rs b
                      (find-hit (has_id id) w.approvals found) good (h' id b found)))
                h')
      ]

  consume-AreExplained :
      (p : Presented)
      → AreExplained ((now, consuming p) ∷ rs) (serve now (consuming p) w).1.approvals
  consume-AreExplained p =
      let rs' : List (ℕ × Request) = (now, consuming p) ∷ rs in
      let h' : AreExplained rs' w.approvals = all_later (now, consuming p) rs w.approvals h in
      elim (consume-cases now p w) [
        | inl (no_use, same) ↦ rw same h'
        | inr (b, c, row, good, used, changed) ↦ rw changed (
            updated rs' (λ (x : ApprovalRequest). has_id b.id x && is_approved x.status) (spent now)
              w.approvals (λ i x. refl) (λ i x found hit (made, granted). (made, inl refl)) h')
      ]

  expire-AreExplained : AreExplained ((now, expiring) ∷ rs) (serve now expiring w).1.approvals
  expire-AreExplained = rw (expire_lem now w) (
      updated ((now, expiring) ∷ rs) (is_due now) lapsed w.approvals (λ i x. refl)
        (λ i x found hit (made, granted). (made, inl refl))
        (all_later (now, expiring) rs w.approvals h))

  create-AreExplained :
      (ttl : ℕ) (n : NewApproval)
      → AreExplained ((now, creating ttl n) ∷ rs) (serve now (creating ttl n) w).1.approvals
  create-AreExplained ttl n =
      let h' = all_later (now, creating ttl n) rs w.approvals h in
      elim (create-cases now ttl n w) [
        | inl same ↦ rw same h'
        | inr (fresh, added) ↦ rw added (
            added-AreExplained ((now, creating ttl n) ∷ rs) (new_approval ttl now n) w.approvals
              (created-IsExplained now ttl n rs) h')
      ]

serve-AreExplained :
    (now : ℕ) (r : Request) (rs : List (ℕ × Request)) (w : Tables)
    → AreExplained rs w.approvals
    → AreExplained ((now, r) ∷ rs) (serve now r w).1.approvals
serve-AreExplained now (creating ttl n) rs w h = create-AreExplained now rs w h ttl n
serve-AreExplained now (deciding id run user d hash) rs w h =
    decide-AreExplained now rs w h id run user d hash
serve-AreExplained now (consuming p) rs w h = consume-AreExplained now rs w h p
serve-AreExplained now expiring rs w h = expire-AreExplained now rs w h

history-AreExplained :
    (rs : List (ℕ × Request)) (w : Tables)
    → w.approvals ≡ []
    → AreExplained rs (history rs w).approvals
history-AreExplained [] w e = λ id a found. (let k = rw e at found in cc)
history-AreExplained ((now, r) ∷ older) w e =
    serve-AreExplained now r older (history older w) (history-AreExplained older w e)

-- Starting without approvals, where a tool call uses an approval after a history of requests, one
-- of these created the approval for the call's user and arguments, and by one of them that user
-- approved it for these arguments before the expiry; and the call itself comes before the expiry.
pub consume-granted :
    (older : List (ℕ × Request)) (w : Tables) (now : ℕ) (p : Presented)
    → w.approvals ≡ []
    → (serve now (consuming p) (history older w)).0 ≡ ok true
    → (expires_at : ℕ) × (now < expires_at)
      × (any (creates p.approval_id p.user_id p.arguments_hash expires_at) older ≡ true)
      × (any (grants p.approval_id p.user_id p.arguments_hash expires_at) older ≡ true)
consume-granted older w now p e h = elim (consume-cases now p (history older w)) [
  | inl (no_use, same) ↦ (let k = rw no_use at h in cc)
  | inr (a, c, row, good, used, changed) ↦
      let found = find-approval p.approval_id (history older w) a c row in
      let (made, granted) = history-AreExplained older w e p.approval_id a found in
      let same_id = ==→eq a.id p.approval_id (find-hit (has_id p.approval_id) _ found) in
      let same_user = ==→eq a.user_id p.user_id (ground (arith, good)) in
      let same_hash = (eq_iff a.arguments_hash p.arguments_hash).0 (ground (arith, good)) in
      (
        a.expires_at,
        ground (arith, good),
        rw (← same_id, ← same_user, ← same_hash) made,
        rw (← same_id, ← same_user, ← same_hash) (ground (arith, granted, good)),
      )
]
