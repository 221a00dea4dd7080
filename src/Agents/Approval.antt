-- ===== src/Agents/Approval.antt =====
-- backend/app/modules/agent_platform/approvals.py: the approvals of tool calls, with the queries of
-- `ApprovalRepository`. Times are microseconds, and `ttl` is the service's time to live.
pub mod Steps
pub mod Once
pub mod Granted
mod Tests
use Prim.Native.String.{count}
use campus_pilots.Base.{
  ℕ, ◌+◌, String, Bool, true, false, not, ◌&&◌, ◌||◌, Option, none, some, List, [], ◌∷◌, leb, ◌==◌,
  any, find, update_where, count_where, str_eq, if◌then◌else◌,
}
use campus_pilots.Errors.{tool_approval_invalid, integrity_error}
use campus_pilots.Exec.{
  Result, Exec, ok, raised, pure, gets, require, raise_if, modify, atomically, ◌>>=◌, ◌>>◌,
}
use campus_pilots.Platform.Moderation.Case.{take_text}

pub data ApprovalStatus : Type 0 where
  pending approved rejected expired consumed : ApprovalStatus

abbrev pub is_pending : ApprovalStatus → Bool
is_pending pending = true
is_pending _ = false

abbrev pub is_approved : ApprovalStatus → Bool
is_approved approved = true
is_approved _ = false

pub data Decision : Type 0 where
  approve reject : Decision

pub record ApprovalRequest : Type 0 where
  pub id : ℕ
  pub run_id : ℕ
  pub tool_call_id : ℕ
  pub user_id : ℕ
  pub action : String
  pub display_summary : String
  pub arguments_hash : String
  pub status : ApprovalStatus
  pub decided_by : Option ℕ
  pub decided_at : Option ℕ
  pub created_at : ℕ
  pub expires_at : ℕ

-- The columns of a tool call that the approvals read, with the user of its run.
pub record ToolApprovalContext : Type 0 where
  pub run_id : ℕ
  pub user_id : ℕ
  pub tool_call_id : ℕ
  pub tool_name : String
  pub tool_version : String

pub record Tables : Type 0 where
  pub approvals : List ApprovalRequest
  pub calls : List ToolApprovalContext

unfoldable pub get_tool_context : ℕ → Tables → Option ToolApprovalContext
get_tool_context tool_call_id w = find (λ c. c.tool_call_id == tool_call_id) w.calls

abbrev pub with_call :
    ApprovalRequest → Option ToolApprovalContext → Option (ApprovalRequest × ToolApprovalContext)
with_call a none = none
with_call a (some c) = some (a, c)

abbrev pub joined : Option ApprovalRequest → Tables → Option (ApprovalRequest × ToolApprovalContext)
joined none w = none
joined (some a) w = with_call a (get_tool_context a.tool_call_id w)

abbrev pub has_id : ℕ → ApprovalRequest → Bool
has_id approval_id a = a.id == approval_id

unfoldable pub get_for_update : ℕ → Tables → Option (ApprovalRequest × ToolApprovalContext)
get_for_update approval_id w = joined (find (has_id approval_id) w.approvals) w

-- `UPDATE … WHERE`, and whether one row was changed.
abbrev pub update_approvals :
    (ApprovalRequest → Bool) → (ApprovalRequest → ApprovalRequest) → Exec Tables Bool
update_approvals p f w =
    (ok (count_where p w.approvals == 1), record w { approvals = update_where p f w.approvals })

abbrev pub decided : ApprovalStatus → ℕ → ℕ → ApprovalRequest → ApprovalRequest
decided status actor now a = record a {
  status = status;
  decided_by = some actor;
  decided_at = some now;
}

unfoldable pub set_decision : ℕ → ApprovalStatus → ℕ → ℕ → Exec Tables Bool
set_decision approval_id status actor now =
    update_approvals (λ a. has_id approval_id a && is_pending a.status) (decided status actor now)

abbrev pub spent : ℕ → ApprovalRequest → ApprovalRequest
spent now a = record a { status = consumed; decided_at = some now }

unfoldable pub consume_row : ℕ → ℕ → Exec Tables Bool
consume_row approval_id now =
    update_approvals (λ a. has_id approval_id a && is_approved a.status) (spent now)

abbrev pub is_due : ℕ → ApprovalRequest → Bool
is_due now a = is_pending a.status && leb a.expires_at now

abbrev pub lapsed : ApprovalRequest → ApprovalRequest
lapsed a = record a { status = expired }

unfoldable pub expire_due : ℕ → Exec Tables ℕ
expire_due now w = (
  ok (count_where (is_due now) w.approvals),
  record w { approvals = update_where (is_due now) lapsed w.approvals },
)

-- The arguments of `create`, the fresh identifier among them.
pub record NewApproval : Type 0 where
  pub id : ℕ
  pub run_id : ℕ
  pub tool_call_id : ℕ
  pub user_id : ℕ
  pub action : String
  pub display_summary : String
  pub arguments_hash : String

abbrev pub new_approval : ℕ → ℕ → NewApproval → ApprovalRequest
new_approval ttl now n = record {
  id = n.id;
  run_id = n.run_id;
  tool_call_id = n.tool_call_id;
  user_id = n.user_id;
  action = n.action;
  display_summary = take_text 1000 n.display_summary;
  arguments_hash = n.arguments_hash;
  status = pending;
  decided_by = none;
  decided_at = none;
  created_at = now;
  expires_at = now + ttl;
}

abbrev pub mismatches : NewApproval → Option ToolApprovalContext → Bool
mismatches n none = true
mismatches n (some c) =
    not (c.run_id == n.run_id)
    || (not (c.user_id == n.user_id) || not (count n.arguments_hash == 64))

-- The primary key refuses an identifier that is there.
unfoldable pub create : ℕ → ℕ → NewApproval → Exec Tables ApprovalRequest
create ttl now n = do
  context ← gets (get_tool_context n.tool_call_id)
  raise_if (mismatches n context) tool_approval_invalid
  taken ← gets (λ w. any (has_id n.id) w.approvals)
  raise_if taken integrity_error
  modify (λ w. record w { approvals = new_approval ttl now n ∷ w.approvals })
  pure (new_approval ttl now n)

abbrev pub status_of : Decision → ApprovalStatus
status_of approve = approved
status_of reject = rejected

-- The condition on which `decide` raises.
abbrev pub undecidable : ApprovalRequest → ℕ → ℕ → String → ℕ → Bool
undecidable a run_id user_id arguments_hash now =
    not (a.run_id == run_id)
    || (not (a.user_id == user_id)
        || (not (is_pending a.status)
            || (leb a.expires_at now || not (str_eq a.arguments_hash arguments_hash))))

unfoldable pub decide : ℕ → ℕ → ℕ → ℕ → Decision → String → Exec Tables ApprovalRequest
unfolding get_for_update set_decision
decide now approval_id run_id user_id decision arguments_hash = do
  row ← gets (get_for_update approval_id)
  (a, call) ← require row tool_approval_invalid
  raise_if (undecidable a run_id user_id arguments_hash now) tool_approval_invalid
  changed ← set_decision a.id (status_of decision) user_id now
  raise_if (not changed) tool_approval_invalid
  pure (decided (status_of decision) user_id now a)

-- What a tool call presents.
pub record Presented : Type 0 where
  pub approval_id : ℕ
  pub user_id : ℕ
  pub tool_name : String
  pub tool_version : String
  pub arguments_hash : String

abbrev pub unusable : ApprovalRequest → ToolApprovalContext → Presented → ℕ → Bool
unusable a c p now =
    not (a.user_id == p.user_id)
    || (not (is_approved a.status)
        || (leb a.expires_at now
            || (not (str_eq a.arguments_hash p.arguments_hash)
                || (not (str_eq c.tool_name p.tool_name)
                    || not (str_eq c.tool_version p.tool_version)))))

unfoldable pub consume : ℕ → Presented → Exec Tables Bool
unfolding get_for_update consume_row
consume now p = do
  row ← gets (get_for_update p.approval_id)
  (a, c) ← require row tool_approval_invalid
  raise_if (unusable a c p now) tool_approval_invalid
  changed ← consume_row a.id now
  raise_if (not changed) tool_approval_invalid
  pure true

-- The requests that reach the approvals, each in a transaction of its own.
pub data Request : Type 0 where
  creating : ℕ → NewApproval → Request
  deciding : ℕ → ℕ → ℕ → Decision → String → Request
  consuming : Presented → Request
  expiring : Request

abbrev pub discard {ℓ} : {A : Type ℓ} → Exec Tables A → Exec Tables Bool
discard m = atomically (m >>= λ _. pure false)

-- Whether a request consumed an approval.
unfoldable pub serve : ℕ → Request → Exec Tables Bool
unfolding create decide consume expire_due
serve now (creating ttl n) = discard (create ttl now n)
serve now (deciding approval_id run_id user_id decision hash) =
    discard (decide now approval_id run_id user_id decision hash)
serve now (consuming p) = atomically (consume now p)
serve now expiring = discard (expire_due now)

-- The tables after a history of requests with their times, the newest first.
abbrev pub history : List (ℕ × Request) → Tables → Tables
history [] w = w
history ((now, r) ∷ older) w = (serve now r (history older w)).1

-- Whether a request used an approval with success.
abbrev pub uses : ℕ → Request → Result Bool → Bool
uses approval_id (consuming p) (ok true) = p.approval_id == approval_id
uses approval_id _ _ = false

-- How often the requests of a history have used an approval.
abbrev pub times_used : ℕ → List (ℕ × Request) → Tables → ℕ
times_used approval_id [] w = 0
times_used approval_id ((now, r) ∷ older) w =
    (if uses approval_id r (serve now r (history older w)).0 then 1 else 0)
    + times_used approval_id older w
