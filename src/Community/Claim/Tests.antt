-- ===== src/Community/Claim/Tests.antt =====
-- Claims on a concrete item that was already handed over.
use campus_pilots.Base.{
  ℕ, String, true, false, ◌&&◌, str_eq, none, some, List, [], ◌∷◌, ◌≡◌, refl, map,
}
use campus_pilots.Errors.{integrity_error}
use campus_pilots.Exec.{Result, ok, raised}
use campus_pilots.Platform.Idempotency.{begin, get_by_scope}
use campus_pilots.Platform.Idempotency as Idempotency
use campus_pilots.Community.Registration.{Actor}
use campus_pilots.Community.Claim.{
  ItemStatus, lost, LostFoundItem, ClaimStatus, pending, LostFoundClaim, Tables,
}
use campus_pilots.Community.Claim.Service.{
  Externals, Call, ClaimResult, claim_status, is_bad_reason, text_length,
}
use campus_pilots.Community.Claim.Operations.{decide, complete}
use campus_pilots.Community.Claim.Completed.{Confirms, complete-Confirms}
use campus_pilots.Community.Claim.Confirmed.{IsConfirmed}
use campus_pilots.Community.Claim.Decided.{Decides, decide-Decides}
use campus_pilots.Community.Claim.Kept.{decide-IsConfirmed, complete-IsConfirmed}

abbrev externals : Externals
externals = record {
  uuid_text = λ n. "uuid";
  parse_uuid = λ t. none;
  encrypt = λ s. s;
  decrypt = λ s. s;
}

abbrev owner : Actor
owner = record { user_id = 2; username = "bob" }

abbrev call_at : String → ℕ → Call
call_at key n = record {
  idempotency_key = key;
  request_id = "request";
  request_hash = "hash";
  now = n;
  record_id = n;
  new_id = n;
}

abbrev umbrella : LostFoundItem
umbrella = record {
  id = 1;
  owner_user_id = 2;
  item_type = lost;
  title = "Umbrella";
  status = ItemStatus.completed;
  completed_at = some 50;
  version = 1;
  updated_at = 50;
  deleted_at = none;
}

abbrev waiting : LostFoundClaim
waiting = record {
  id = 6;
  target_item_id = 1;
  claimant_item_id = none;
  claimant_user_id = 3;
  evidence_ciphertext = "It is mine";
  status = pending;
  decision_reason = none;
  decided_by = none;
  decided_at = none;
  claimant_confirmed_at = none;
  owner_confirmed_at = none;
  completed_at = none;
  version = 1;
  created_at = 20;
  updated_at = 20;
}

-- The claim of another user for the same item, which both sides have confirmed.
abbrev done : LostFoundClaim
done = record waiting {
  id = 5;
  claimant_user_id = 4;
  status = ClaimStatus.completed;
  claimant_confirmed_at = some 40;
  owner_confirmed_at = some 50;
  completed_at = some 50;
  version = 4;
}

abbrev tables : Tables
tables = record {
  items = umbrella ∷ [];
  claims = done ∷ waiting ∷ [];
  profiles = λ u. none;
  idempotency = [];
  audit = [];
}

abbrev statuses : Tables → List ItemStatus
statuses w = map (λ i. i.status) w.items

-- The whole request publishes the item that was handed over.
published_again :
    statuses (decide externals owner (call_at "a" 60) 6 "rejected" (some "no") 1 tables).1
    ≡ ItemStatus.published ∷ []
unfolding decide begin Idempotency.complete text_length
published_again = refl

tables-IsConfirmed : IsConfirmed tables
tables-IsConfirmed = (refl, (refl, tt))

-- The refusal of the claim that waits, whose answer is that of the code.
abbrev refusal : Result ClaimResult × Tables
refusal = decide externals owner (call_at "a" 60) 6 "rejected" (some "no") 1 tables

abbrev answer : ClaimResult
answer = record {
  status_code = 200;
  body = record {
    content = record {
      id = 6;
      target_item = record umbrella { status = ItemStatus.published; updated_at = 60 };
      claimant_item_id = none;
      claimant = record { user_id = 3; display_name = "未知用户"; avatar_url = none };
      evidence = "It is mine";
      status = ClaimStatus.rejected;
      decision_reason = some "no";
      claimant_confirmed = false;
      owner_confirmed = false;
      completed_at = none;
      version = 2;
      created_at = 20;
      updated_at = 60;
    };
    request_id = "request";
    timestamp = 60;
  };
}

refusal_returns : refusal.0 ≡ ok answer
unfolding decide begin Idempotency.complete text_length claim_status
refusal_returns = refl

decide-Decides_example :
    Decides externals owner
      (call_at "a" 60)
      6
      "rejected"
      (some "no")
      1
      tables.items
      tables.claims
      refusal.1
    × ((str_eq "rejected" "rejected" && is_bad_reason (some "no")) ≡ false)
unfolding get_by_scope
decide-Decides_example =
    decide-Decides externals owner (call_at "a" 60) 6 "rejected" (some "no") 1 tables answer refl
      refusal_returns

-- The table accepts no other text, and no completion without the confirmations.
other_decisions :
    ((decide externals owner (call_at "a" 60) 6 "accepted" none 1 tables).0
      ≡ raised integrity_error)
    × ((decide externals owner (call_at "a" 60) 6 "completed" none 1 tables).0
        ≡ raised integrity_error)
unfolding decide begin Idempotency.complete text_length claim_status
other_decisions = (refl, refl)

complete-IsConfirmed_example :
    IsConfirmed
      (complete externals owner
        (call_at "b" 70)
        6
        2
        (decide externals owner (call_at "a" 60) 6 "verified" none 1 tables).1).1
complete-IsConfirmed_example =
    complete-IsConfirmed externals owner (call_at "b" 70) 6 2
      (decide externals owner (call_at "a" 60) 6 "verified" none 1 tables).1
      (decide-IsConfirmed externals owner (call_at "a" 60) 6 "verified" none 1 tables
        tables-IsConfirmed)

-- The claim after the owner's approval; the claimant has not confirmed yet.
abbrev approved : Tables
approved = (decide externals owner (call_at "a" 60) 6 "verified" none 1 tables).1

abbrev confirmation : Result ClaimResult × Tables
confirmation = complete externals owner (call_at "b" 70) 6 2 approved

abbrev confirmed_answer : ClaimResult
confirmed_answer = record {
  status_code = 200;
  body = record {
    content = record {
      id = 6;
      target_item = umbrella;
      claimant_item_id = none;
      claimant = record { user_id = 3; display_name = "未知用户"; avatar_url = none };
      evidence = "It is mine";
      status = ClaimStatus.verified;
      decision_reason = none;
      claimant_confirmed = false;
      owner_confirmed = true;
      completed_at = none;
      version = 3;
      created_at = 20;
      updated_at = 70;
    };
    request_id = "request";
    timestamp = 70;
  };
}

confirmation_returns : confirmation.0 ≡ ok confirmed_answer
unfolding decide complete begin Idempotency.complete text_length claim_status
confirmation_returns = refl

complete-Confirms_example :
    Confirms externals owner (call_at "b" 70) 6 2 approved.items approved.claims confirmation.1
unfolding decide begin Idempotency.complete text_length claim_status get_by_scope
complete-Confirms_example =
    complete-Confirms externals owner (call_at "b" 70) 6 2 approved confirmed_answer refl
      confirmation_returns
