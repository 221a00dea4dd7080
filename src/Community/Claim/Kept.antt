-- ===== src/Community/Claim/Kept.antt =====
-- The three operations on claims, with their idempotency keys and transactions.
use campus_pilots.Base.{
  ℕ, String, Bool, true, false, ◌&&◌, Option, none, some, inl, inr, Option-cases, Bool-cases,
  str_eq,
}
use campus_pilots.Errors.{AppError}
use campus_pilots.Exec.{Exec, require, raise_if}
use campus_pilots.Exec.Keeps.{Keeps, atomically-Leads, bind-Leads}
use campus_pilots.Platform.Idempotency.{IdempotencyReplay, IdempotencyDecision, begin}
use campus_pilots.Platform.Idempotency.Endpoint.{on_records}
use campus_pilots.Community.Registration.{Actor}
use campus_pilots.Community.Claim.{LostFoundClaim, SafeMeta, Tables, get_visible, get_item}
use campus_pilots.Community.Claim.Service.{
  claim_records, Externals, Call, ClaimResult, is_refusal, is_bad_reason,
}
use campus_pilots.Community.Claim.Answer.{
  claim_endpoint, answer_claim, hydrate, reply, reply_created, get_claim,
}
use campus_pilots.Community.Claim.Operations.{
  create_work, create, decide_work, decide, complete_work, complete,
}
use campus_pilots.Community.Claim.Confirmed.{
  IsConfirmed, create_work-Keeps, decide_work-Keeps, complete_work-Keeps,
}

require-Keeps :
    {A : Type 0} (o : Option A) (e : AppError) → Keeps IsConfirmed (require {S = Tables} o e)
require-Keeps none e w h = h
require-Keeps (some a) e w h = h

raise_if-Keeps : (b : Bool) (e : AppError) → Keeps IsConfirmed (raise_if {S = Tables} b e)
raise_if-Keeps true e w h = h
raise_if-Keeps false e w h = h

module _ (x : Externals) (actor : Actor) (call : Call) where
  hydrate-Keeps : (c : LostFoundClaim) → Keeps IsConfirmed (hydrate x actor call c)
  hydrate-Keeps c w h = elim (Option-cases (get_item c.target_item_id w.items)) [
    | inl q ↦ rw q h
    | inr (i, q) ↦ rw q h
  ]

  get_claim-Keeps : (claim_id : ℕ) → Keeps IsConfirmed (get_claim x actor call claim_id)
  unfolding get_claim
  get_claim-Keeps claim_id w h =
      elim (Option-cases (get_visible claim_id actor.user_id w.items w.claims)) [
        | inl q ↦ rw q h
        | inr (c, q) ↦ rw q (hydrate-Keeps c w h)
      ]

  reply-Keeps :
      (status claim_id : ℕ) (r : IdempotencyReplay SafeMeta)
      → Keeps IsConfirmed (reply x actor call status claim_id r)
  reply-Keeps status claim_id r =
      bind-Leads IsConfirmed IsConfirmed IsConfirmed (get_claim x actor call claim_id) _ (λ w h. h)
        (get_claim-Keeps claim_id)
        λ d.
          bind-Leads IsConfirmed IsConfirmed IsConfirmed (require r.response_body _) _ (λ w h. h)
            (require-Keeps r.response_body _) (λ saved w h. h)

  reply_created-Keeps :
      (r : IdempotencyReplay SafeMeta) → Keeps IsConfirmed (reply_created x actor call r)
  reply_created-Keeps r =
      bind-Leads IsConfirmed IsConfirmed IsConfirmed (require r.resource_id _) _ (λ w h. h)
        (require-Keeps r.resource_id _)
        λ text.
          bind-Leads IsConfirmed IsConfirmed IsConfirmed (raise_if (str_eq text "") _) _ (λ w h. h)
            (raise_if-Keeps (str_eq text "") _)
            λ u.
              bind-Leads IsConfirmed IsConfirmed IsConfirmed (require (x.parse_uuid text) _) _
                (λ w h. h) (require-Keeps (x.parse_uuid text) _)
                λ claim_id. reply-Keeps 201 claim_id r

  module _ (replay : IdempotencyReplay SafeMeta → Exec Tables ClaimResult)
      (work : ℕ → Exec Tables ClaimResult)
      (replay-Keeps : (r : IdempotencyReplay SafeMeta) → Keeps IsConfirmed (replay r))
      (work-Keeps : (i : ℕ) → Keeps IsConfirmed (work i)) where
    answer-Keeps :
        (d : IdempotencyDecision SafeMeta)
        → Keeps IsConfirmed (answer_claim x actor call replay work d)
    answer-Keeps d w h = elim (Option-cases d.replay) [
      | inr (r, q) ↦ rw q (replay-Keeps r w h)
      | inl q ↦ elim (Bool-cases d.pending) [
        | inl p ↦ rw (q, p) h
        | inr p ↦ rw (q, p) (work-Keeps d.record_id w h)
      ]
    ]

    claim_endpoint-Keeps :
        (endpoint : String) → Keeps IsConfirmed (claim_endpoint x actor call endpoint replay work)
    unfolding claim_endpoint
    claim_endpoint-Keeps endpoint =
        atomically-Leads IsConfirmed IsConfirmed _ (λ w h. h)
          (bind-Leads IsConfirmed IsConfirmed IsConfirmed
            (on_records claim_records (
              begin (λ rows. rows)
                (record {
                  user_id = actor.user_id;
                  endpoint = endpoint;
                  idempotency_key = call.idempotency_key;
                })
                call.request_hash call.record_id call.now))
            (answer_claim x actor call replay work) (λ w h. h) (λ w h. h) answer-Keeps)

  -- A request to make a claim, whether it succeeds or raises, keeps this: every claim that is completed has the
  -- confirmations of both sides and a time of completion.
  pub create-IsConfirmed :
      (target_id : ℕ) (item : Option ℕ) (evidence : String) (w : Tables)
      → IsConfirmed w
      → IsConfirmed (create x actor call target_id item evidence w).1
  unfolding create
  create-IsConfirmed target_id item evidence =
      claim_endpoint-Keeps (reply_created x actor call)
        (create_work x actor call target_id item evidence) reply_created-Keeps
        (create_work-Keeps x actor call target_id item evidence) _

  -- A decision on a claim, whether it succeeds or raises, keeps this: every claim that is completed has the
  -- confirmations of both sides and a time of completion.
  pub decide-IsConfirmed :
      (claim_id : ℕ) (d : String) (reason : Option String) (version : ℕ) (w : Tables)
      → IsConfirmed w
      → IsConfirmed (decide x actor call claim_id d reason version w).1
  unfolding decide
  decide-IsConfirmed claim_id d reason version w h =
      elim (Bool-cases (is_refusal d && is_bad_reason reason)) [
        | inl b ↦ rw b h
        | inr b ↦ rw b (
            claim_endpoint-Keeps (reply x actor call 200 claim_id)
              (decide_work x actor call claim_id d reason version) (reply-Keeps 200 claim_id)
              (decide_work-Keeps x actor call claim_id d reason version) _ w h)
      ]

  -- A confirmation of a claim, whether it succeeds or raises, keeps this: every claim that is completed has the
  -- confirmations of both sides and a time of completion.
  pub complete-IsConfirmed :
      (claim_id version : ℕ) (w : Tables)
      → IsConfirmed w
      → IsConfirmed (complete x actor call claim_id version w).1
  unfolding complete
  complete-IsConfirmed claim_id version =
      claim_endpoint-Keeps (reply x actor call 200 claim_id)
        (complete_work x actor call claim_id version) (reply-Keeps 200 claim_id)
        (complete_work-Keeps x actor call claim_id version) _
