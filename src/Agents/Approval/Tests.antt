-- ===== src/Agents/Approval/Tests.antt =====
-- One approval, from its creation to its use.
use campus_pilots.Base.{ℕ, ◌≤◌, ◌<◌, String, true, List, [], ◌∷◌, ◌≡◌, refl, any}
use campus_pilots.Exec.{ok}
use campus_pilots.Agents.Approval.{
  Tables, NewApproval, Presented, Request, creating, deciding, consuming, expiring, approve, serve,
  history, times_used, create, decide, consume, expire_due, get_for_update, get_tool_context,
  set_decision, consume_row,
}
use campus_pilots.Agents.Approval.Once.{times_used-once}
use campus_pilots.Agents.Approval.Granted.{consume-granted, creates, grants}

abbrev hash : String
hash = "0123456789abcdef0123456789abcdef0123456789abcdef0123456789abcdef"

abbrev tables : Tables
tables = record {
  approvals = [];
  calls =
      record {
        run_id = 1;
        user_id = 7;
        tool_call_id = 5;
        tool_name = "event.register";
        tool_version = "1.0.0";
      }
      ∷ [];
}

abbrev asked : NewApproval
asked = record {
  id = 9;
  run_id = 1;
  tool_call_id = 5;
  user_id = 7;
  action = "event.register";
  display_summary = "register";
  arguments_hash = hash;
}

abbrev presented : Presented
presented = record {
  approval_id = 9;
  user_id = 7;
  tool_name = "event.register";
  tool_version = "1.0.0";
  arguments_hash = hash;
}

-- The newest request first: asked at 100, approved at 110, and unused when the others expire.
abbrev requests : List (ℕ × Request)
requests = (120, expiring) ∷ (110, deciding 9 1 7 approve hash) ∷ (100, creating 600 asked) ∷ []

is_used : (serve 130 (consuming presented) (history requests tables)).0 ≡ ok true
unfolding serve create decide consume expire_due get_for_update get_tool_context set_decision
    consume_row
is_used = refl

consume-granted_example :
    (expires_at : ℕ) × (130 < expires_at)
    × (any (creates 9 7 hash expires_at) requests ≡ true)
    × (any (grants 9 7 hash expires_at) requests ≡ true)
consume-granted_example = consume-granted requests tables 130 presented refl is_used

times_used-once_example :
    times_used 9 ((140, consuming presented) ∷ (130, consuming presented) ∷ requests) tables ≤ 1
times_used-once_example =
    times_used-once 9 ((140, consuming presented) ∷ (130, consuming presented) ∷ requests) tables
