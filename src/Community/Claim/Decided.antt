-- ===== src/Community/Claim/Decided.antt =====
-- What a request to decide a claim does when it succeeds.
use campus_pilots.Base.{
  ℕ, ◌+◌, String, Bool, true, false, not, ◌&&◌, Option, none, some, List, ◌∷◌, refl, ◌≡◌, ◌⊎◌, inl,
  inr, ◌==◌, ==→eq, ap, ◌∙◌, Option-cases, Bool-cases, count_where, update_where, if◌then◌else◌,
  str_eq, is_some, arith,
}
use Prim.Native.String.{◌++◌}
use campus_pilots.Exec.{Exec, Result, ok, raised, settle, Result-cases}
use campus_pilots.Platform.Idempotency.{
  complete, is_open, begin, get_by_scope, new_record, in_scope, IdempotencyReplay, Scope,
}
use campus_pilots.Platform.Idempotency.Laws.{find-any}
use campus_pilots.Community.Registration.{Actor}
use campus_pilots.Community.Claim.{
  ItemStatus, ClaimStatus, LostFoundClaim, LostFoundItem, SafeMeta, Tables, get_item, get_visible,
  get_target_for_update, is_pending, other_active_exists, write_item, write_claim,
}
use campus_pilots.Community.Claim.Service.{
  Externals, Call, ClaimResult, claim_records, claim_status, is_refusal, is_bad_reason, is_sound,
  decided,
}
use campus_pilots.Community.Claim.Answer.{conclude, claim_endpoint, reply}
use campus_pilots.Community.Claim.Operations.{decide_work, decide, store_decision}

abbrev pub raises : Result ClaimResult → Bool
raises (ok r) = false
raises (raised e) = true

module _ (x : Externals) (actor : Actor) (call : Call) where
  -- The conclusion of an operation leaves items and claims alone.
  pub conclude_rows :
      (action : String) (status record_id : ℕ) (c : LostFoundClaim) (w : Tables)
      → ((conclude x actor call action status record_id c w).1.items ≡ w.items)
        × ((conclude x actor call action status record_id c w).1.claims ≡ w.claims)
  unfolding complete
  conclude_rows action status record_id c w =
      elim (Option-cases (get_item c.target_item_id w.items)) [
        | inl q ↦ rw q (refl, refl)
        | inr (i, q) ↦ elim (Bool-cases (count_where (is_open record_id) w.idempotency == 1)) [
          | inl one ↦ rw q (rw one (refl, refl))
          | inr other ↦ rw q (rw other (refl, refl))
        ]
      ]

  -- The guards that a decision has passed, and the rows that it has written.
  pub record Decides (claim_id : ℕ) (d : String) (reason : Option String) (version : ℕ)
      (items : List LostFoundItem) (claims : List LostFoundClaim) (after : Tables) : Type 0 where
    pub claim : LostFoundClaim
    pub target : LostFoundItem
    pub status : ClaimStatus
    pub claim_found : get_visible claim_id actor.user_id items claims ≡ some claim
    pub target_found : get_target_for_update claim.target_item_id items ≡ some target
    pub owned : target.owner_user_id ≡ actor.user_id
    pub was_pending : is_pending claim.status ≡ true
    pub at_version : claim.version ≡ version
    pub named : claim_status d ≡ some status
    pub claims_after :
        after.claims
        ≡ update_where
            (λ y. y.id == claim.id)
            (λ _. record claim {
              status = status;
              decided_by = some actor.user_id;
              decided_at = some call.now;
              decision_reason = if str_eq d "rejected" then reason else none;
              version = claim.version + 1;
              updated_at = call.now;
            })
            claims
    pub items_after : after.items ≡ (
        if str_eq d "rejected" && not (other_active_exists target.id claim.id claims)
        then update_where
            (λ y. y.id == target.id)
            (λ _. record target { status = ItemStatus.published; updated_at = call.now })
            items
        else items)

  decide_work-cases :
      (claim_id : ℕ) (d : String) (reason : Option String) (version record_id : ℕ) (w : Tables)
      → let (answer, after) = decide_work x actor call claim_id d reason version record_id w in
        (raises answer ≡ true) ⊎ Decides claim_id d reason version w.items w.claims after
  unfolding decide_work write_claim write_item
  decide_work-cases claim_id d reason version record_id w =
      elim (Option-cases (get_visible claim_id actor.user_id w.items w.claims)) [
        | inl f ↦ inl (rw f refl)
        | inr (c, f) ↦ elim (Option-cases (get_target_for_update c.target_item_id w.items)) [
          | inl t ↦ inl (rw f (rw t refl))
          | inr (target, t) ↦ elim (Bool-cases (target.owner_user_id == actor.user_id)) [
            | inr o ↦ inl (rw f (rw t (rw o refl)))
            | inl o ↦ elim (Bool-cases (is_pending c.status)) [
              | inr p ↦ inl (rw f (rw t (rw o (rw p refl))))
              | inl p ↦ elim (Bool-cases (c.version == version)) [
                | inr v ↦ inl (rw f (rw t (rw o (rw p (rw v refl)))))
                | inl v ↦ elim (Option-cases (claim_status d)) [
                  | inl none_such ↦ inl (rw f (rw t (rw o (rw p (rw v (rw none_such refl))))))
                  | inr (s, named) ↦
                      let c' = decided actor d s reason call.now c in
                      elim (Bool-cases (is_sound s c')) [
                        | inr bad ↦ inl (rw f (rw t (rw o (rw p (rw v (rw named (rw bad refl)))))))
                        | inl good ↦
                            let rows =
                              conclude_rows "community.lost_found.claim.decide" 200 record_id c'
                                (store_decision x actor call d s reason c target w) in
                            inr (record {
                              claim = c;
                              target = target;
                              status = s;
                              claim_found = f;
                              target_found = t;
                              owned = ==→eq target.owner_user_id actor.user_id o;
                              was_pending = p;
                              at_version = ==→eq c.version version v;
                              named = named;
                              claims_after =
                                  rw f (rw t (rw o (rw p (rw v (rw named (rw good rows.1))))));
                              items_after =
                                  rw f (rw t (rw o (rw p (rw v (rw named (rw good rows.0))))));
                            })
                      ]
                ]
              ]
            ]
          ]
        ]
      ]

  -- The unique key of the request's record.
  abbrev pub scope_of : String → Scope
  scope_of endpoint = record {
    user_id = actor.user_id;
    endpoint = endpoint;
    idempotency_key = call.idempotency_key;
  }

  abbrev pub begun : String → Tables → Tables
  begun endpoint w = record w {
    idempotency =
        new_record (scope_of endpoint) call.request_hash call.record_id call.now ∷ w.idempotency;
  }

  -- A request under a free key is the work on the tables with a new record, rolled back if it raises.
  pub endpoint-free :
      (endpoint : String) (replay : IdempotencyReplay SafeMeta → Exec Tables ClaimResult)
      (work : ℕ → Exec Tables ClaimResult) (w : Tables)
      → get_by_scope (scope_of endpoint) w.idempotency ≡ none
      → claim_endpoint x actor call endpoint replay work w
        ≡ settle
            (work call.record_id (begun endpoint w)).0
            (work call.record_id (begun endpoint w)).1
            w
  unfolding claim_endpoint begin
  endpoint-free endpoint replay work w free =
      let closed = find-any (in_scope (scope_of endpoint)) w.idempotency ∙ ap is_some free in
      rw (free, closed) refl

  -- `POST /api/v1/lost-found-claims/{claim_id}/decision`
  abbrev pub decision_endpoint : ℕ → String
  decision_endpoint claim_id =
      "POST /api/v1/lost-found-claims/" ++ (x.uuid_text claim_id ++ "/decision")

  -- A decision under a free idempotency key that returns has passed every guard: the claim is one that the actor sees, pending
  -- and at the version of the request, its item is the actor's own, the decision is a status that the
  -- table accepts, and a refusal has a reason of 2 to 500 characters. It has written exactly the row of the claim, with
  -- the decision as its status, the actor, the time and, for a refusal, the reason, and has published the item exactly if it refuses
  -- the last active claim; nothing else of claims and items changes.
  pub decide-Decides :
      (claim_id : ℕ) (d : String) (reason : Option String) (version : ℕ) (w : Tables)
      (r : ClaimResult)
      → get_by_scope (scope_of (decision_endpoint claim_id)) w.idempotency ≡ none
      → (decide x actor call claim_id d reason version w).0 ≡ ok r
      → Decides claim_id d reason version w.items w.claims
          (decide x actor call claim_id d reason version w).1
        × ((str_eq d "rejected" && is_bad_reason reason) ≡ false)
  unfolding decide
  decide-Decides claim_id d reason version w r free returned =
      elim (Bool-cases (is_refusal d && is_bad_reason reason)) [
        | inl bad ↦ (let k = rw bad at returned in cc)
        | inr good ↦
            let shape =
              endpoint-free (decision_endpoint claim_id) (reply x actor call 200 claim_id)
                (decide_work x actor call claim_id d reason version) w free in
            let before = begun (decision_endpoint claim_id) w in
            let done = decide_work x actor call claim_id d reason version call.record_id before in
            elim (Result-cases done.0) [
              | inr (e, bad) ↦ (let k = rw (good, shape, bad) at returned in cc)
              | inl (a, fine) ↦
                  elim (decide_work-cases claim_id d reason version call.record_id before) [
                    | inl bad ↦ absurd (ground (arith, bad, fine))
                    | inr h ↦ (rw (good, shape, fine) h, good)
                  ]
            ]
      ]
