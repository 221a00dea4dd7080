-- ===== src/Community/Claim/Operations.antt =====
-- The three operations of `LostFoundClaimService`, each in its transaction.
use Prim.Native.String.{◌++◌}
use campus_pilots.Base.{
  ℕ, String, not, ◌&&◌, ◌||◌, Option, none, some, List, ◌∷◌, ◌==◌, if◌then◌else◌,
}
use campus_pilots.Errors.{
  lost_found_item_not_found, lost_found_claim_not_found, lost_found_claim_invalid,
  lost_found_claim_conflict, lost_found_claim_state_invalid, community_resource_version_conflict,
  integrity_error,
}
use campus_pilots.Exec.{Exec, gets, modify, require, raise_if, ◌>>=◌, ◌>>◌}
use campus_pilots.Community.Registration.{Actor}
use campus_pilots.Community.Claim.{
  ItemStatus, ClaimStatus, LostFoundItem, LostFoundClaim, Tables, is_open_item, is_pending,
  is_verified, get_item, get_target_for_update, get_visible, active_exists, other_active_exists,
  write_item, write_claim,
}
use campus_pilots.Community.Claim.Service.{
  claim_records, Externals, Call, ClaimResult, claim_status, is_sound, is_refusal, is_bad_reason,
  decided, confirmed, settled, settled_items, is_bad_claimant_item, new_claim,
}
use campus_pilots.Community.Claim.Answer.{reply, reply_created, conclude, claim_endpoint}

module _ (x : Externals) (actor : Actor) (call : Call) where
  abbrev pub open_target : Option LostFoundItem → Option LostFoundItem
  open_target none = none
  open_target (some i) = if is_open_item i.status then some i else none

  abbrev pub store_claim : LostFoundClaim → LostFoundItem → Tables → Tables
  store_claim c target w = record w {
    claims = c ∷ w.claims;
    items =
        write_item (record target { status = ItemStatus.claiming; updated_at = call.now }) w.items;
  }

  unfoldable pub create_work : ℕ → Option ℕ → String → ℕ → Exec Tables ClaimResult
  unfolding get_target_for_update active_exists write_item get_item
  create_work target_id claimant_item_id evidence record_id = do
    items ← gets (λ w. w.items)
    target ← require (open_target (get_target_for_update target_id items)) lost_found_item_not_found
    raise_if (target.owner_user_id == actor.user_id) lost_found_claim_invalid
    claims ← gets (λ w. w.claims)
    raise_if (active_exists target_id actor.user_id claims) lost_found_claim_conflict
    raise_if (is_bad_claimant_item actor target claimant_item_id items) lost_found_claim_invalid
    let c = new_claim x actor target claimant_item_id evidence call
    modify (store_claim c target)
    conclude x actor call "community.lost_found.claim.create" 201 record_id c

  unfoldable pub create : ℕ → Option ℕ → String → Exec Tables ClaimResult
  unfolding create_work claim_endpoint
  create target_id claimant_item_id evidence =
      claim_endpoint x actor call
        ("POST /api/v1/lost-found/" ++ (x.uuid_text target_id ++ "/claims"))
        (reply_created x actor call) (create_work target_id claimant_item_id evidence)

  -- The target after a decision: published again when its last active claim is refused.
  abbrev pub freed_items : String → LostFoundItem → LostFoundClaim → Tables → List LostFoundItem
  freed_items decision target c w =
      if is_refusal decision && not (other_active_exists target.id c.id w.claims)
      then write_item (record target { status = ItemStatus.published; updated_at = call.now })
          w.items
      else w.items

  abbrev pub store_decision :
      String → ClaimStatus → Option String → LostFoundClaim → LostFoundItem → Tables → Tables
  store_decision decision status reason c target w = record w {
    claims = write_claim (decided actor decision status reason call.now c) w.claims;
    items = freed_items decision target c w;
  }

  -- A decision that the table refuses raises at the flush, before anything else is written.
  unfoldable pub decide_work : ℕ → String → Option String → ℕ → ℕ → Exec Tables ClaimResult
  unfolding get_visible get_target_for_update other_active_exists write_item write_claim get_item
      claim_status
  decide_work claim_id decision reason version record_id = do
    found ← gets (λ w. get_visible claim_id actor.user_id w.items w.claims)
    c ← require found lost_found_claim_not_found
    items ← gets (λ w. w.items)
    target ← require (get_target_for_update c.target_item_id items) lost_found_claim_not_found
    raise_if (not (target.owner_user_id == actor.user_id)) lost_found_claim_not_found
    raise_if (not (is_pending c.status)) lost_found_claim_state_invalid
    raise_if (not (c.version == version)) community_resource_version_conflict
    status ← require (claim_status decision) integrity_error
    let c' = decided actor decision status reason call.now c
    raise_if (not (is_sound status c')) integrity_error
    modify (store_decision decision status reason c target)
    conclude x actor call "community.lost_found.claim.decide" 200 record_id c'

  unfoldable pub decide : ℕ → String → Option String → ℕ → Exec Tables ClaimResult
  unfolding decide_work claim_endpoint
  decide claim_id decision reason version = do
    raise_if (is_refusal decision && is_bad_reason reason) lost_found_claim_invalid
    claim_endpoint x actor call
        ("POST /api/v1/lost-found-claims/" ++ (x.uuid_text claim_id ++ "/decision"))
        (reply x actor call 200 claim_id) (decide_work claim_id decision reason version)

  abbrev pub store_completion : LostFoundClaim → Tables → Tables
  store_completion agreed w = record w {
    claims = write_claim (settled call.now agreed) w.claims;
    items = settled_items call.now agreed w.items;
  }

  unfoldable pub complete_work : ℕ → ℕ → ℕ → Exec Tables ClaimResult
  unfolding get_visible write_claim get_item
  complete_work claim_id version record_id = do
    found ← gets (λ w. get_visible claim_id actor.user_id w.items w.claims)
    c ← require found lost_found_claim_not_found
    raise_if (not (is_verified c.status)) lost_found_claim_state_invalid
    raise_if (not (c.version == version)) community_resource_version_conflict
    items ← gets (λ w. w.items)
    target ← require (get_item c.target_item_id items) lost_found_claim_not_found
    raise_if (not (actor.user_id == target.owner_user_id || actor.user_id == c.claimant_user_id))
        lost_found_claim_not_found
    let agreed = confirmed actor call.now target c
    let c' = settled call.now agreed
    modify (store_completion agreed)
    conclude x actor call "community.lost_found.claim.complete" 200 record_id c'

  unfoldable pub complete : ℕ → ℕ → Exec Tables ClaimResult
  unfolding complete_work claim_endpoint
  complete claim_id version =
      claim_endpoint x actor call
        ("POST /api/v1/lost-found-claims/" ++ (x.uuid_text claim_id ++ "/completion"))
        (reply x actor call 200 claim_id) (complete_work claim_id version)
