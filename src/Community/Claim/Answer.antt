-- ===== src/Community/Claim/Answer.antt =====
-- The frame of the three operations: the answer, its replay, and the idempotency key in the
-- transaction.
use campus_pilots.Base.{ℕ, String, not, none, some, str_eq, is_some}
use campus_pilots.Errors.{idempotency_conflict, runtime_error, lost_found_claim_not_found}
use campus_pilots.Exec.{Exec, pure, gets, modify, require, raise_if, atomically, ◌>>=◌, ◌>>◌}
use campus_pilots.Platform.Audit.{record_success}
use campus_pilots.Platform.Idempotency.{
  IdempotencyReplay, IdempotencyDecision, begin, complete as close_record,
}
use campus_pilots.Platform.Idempotency.Endpoint.{on_records}
use campus_pilots.Community.Registration.{Actor, name_of, avatar_of}
use campus_pilots.Community.Claim.{
  LostFoundItem, LostFoundClaim, ClaimData, SafeMeta, Tables, get_item, get_visible,
}
use campus_pilots.Community.Claim.Service.{claim_records, Externals, Call, ClaimResult}

module _ (x : Externals) (actor : Actor) (call : Call) where
  -- `_hydrate` of one claim; a claim without its target is a `KeyError`.
  abbrev pub claim_data : LostFoundClaim → LostFoundItem → Tables → ClaimData
  claim_data c target w = record {
    id = c.id;
    target_item = target;
    claimant_item_id = c.claimant_item_id;
    claimant = record {
      user_id = c.claimant_user_id;
      display_name = name_of (w.profiles c.claimant_user_id);
      avatar_url = avatar_of (w.profiles c.claimant_user_id);
    };
    evidence = x.decrypt c.evidence_ciphertext;
    status = c.status;
    decision_reason = c.decision_reason;
    claimant_confirmed = is_some c.claimant_confirmed_at;
    owner_confirmed = is_some c.owner_confirmed_at;
    completed_at = c.completed_at;
    version = c.version;
    created_at = c.created_at;
    updated_at = c.updated_at;
  }

  abbrev pub hydrate : LostFoundClaim → Exec Tables ClaimData
  hydrate c = do
    items ← gets (λ w. w.items)
    target ← require (get_item c.target_item_id items) runtime_error
    gets (claim_data c target)

  -- `_get`
  unfoldable pub get_claim : ℕ → Exec Tables ClaimData
  unfolding get_visible get_item
  get_claim claim_id = do
    found ← gets (λ w. get_visible claim_id actor.user_id w.items w.claims)
    c ← require found lost_found_claim_not_found
    hydrate c

  abbrev pub result : ℕ → String → ℕ → ClaimData → ClaimResult
  result status request_id timestamp d = record {
    status_code = status;
    body = record { content = d; request_id = request_id; timestamp = timestamp };
  }

  -- The branch of a replay, for the claim with this id.
  abbrev pub reply : ℕ → ℕ → IdempotencyReplay SafeMeta → Exec Tables ClaimResult
  reply status claim_id r = do
    d ← get_claim claim_id
    saved ← require r.response_body runtime_error
    pure (result status saved.request_id saved.timestamp d)

  -- `if not decision.replay.resource_id: raise …`, then `UUID(…)`.
  abbrev pub reply_created : IdempotencyReplay SafeMeta → Exec Tables ClaimResult
  reply_created r = do
    text ← require r.resource_id idempotency_conflict
    raise_if (str_eq text "") idempotency_conflict
    claim_id ← require (x.parse_uuid text) runtime_error
    reply 201 claim_id r

  -- The audit entry, and `_complete_safe`.
  abbrev pub conclude : String → ℕ → ℕ → LostFoundClaim → Exec Tables ClaimResult
  conclude action status record_id c = do
    d ← hydrate c
    modify (λ w. record w {
      audit =
          record_success action "lost_found_claim" (some (x.uuid_text c.id)) call.request_id
            (some actor.user_id) (some actor.username) w.audit;
    })
    done ← on_records claim_records (
        close_record record_id status
          (record {
            request_id = call.request_id;
            timestamp = call.now;
            resource_id = x.uuid_text c.id;
          })
          (some "lost_found_claim") (some (x.uuid_text c.id)))
    raise_if (not done) idempotency_conflict
    pure (result status call.request_id call.now d)

  abbrev pub answer_claim :
      (IdempotencyReplay SafeMeta → Exec Tables ClaimResult)
      → (ℕ → Exec Tables ClaimResult)
      → IdempotencyDecision SafeMeta
      → Exec Tables ClaimResult
  answer_claim replay work d = elim d.replay [
    | some r ↦ replay r
    | none ↦ raise_if d.pending idempotency_conflict >> work d.record_id
  ]

  unfoldable pub claim_endpoint :
      String
      → (IdempotencyReplay SafeMeta → Exec Tables ClaimResult)
      → (ℕ → Exec Tables ClaimResult)
      → Exec Tables ClaimResult
  unfolding begin close_record
  claim_endpoint endpoint replay work = atomically do
    d ← on_records claim_records (
        begin (λ rows. rows)
          (record {
            user_id = actor.user_id;
            endpoint = endpoint;
            idempotency_key = call.idempotency_key;
          })
          call.request_hash call.record_id call.now)
    answer_claim replay work d
