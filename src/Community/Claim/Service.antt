-- ===== src/Community/Claim/Service.antt =====
-- `LostFoundClaimService` (backend/app/modules/community/claims.py): `create`, `decide` and
-- `complete`. A replay answers with the claim as it is now. The target stands in the answer as its
-- row, of which `LostFoundQueryService` makes the shown item.
use Prim.Native.String.{[] as empty_text, ◌∷◌ as char}
use campus_pilots.Base.{
  refl, ℕ, zero, suc, ◌+◌, String, Bool, true, false, not, ◌&&◌, ◌||◌, Option, none, some, List,
  leb, ◌==◌, is_some, update_where, if◌then◌else◌, str_eq,
}
use campus_pilots.Platform.Idempotency.Endpoint.{HasRecords}
use campus_pilots.Community.Registration.{Actor}
use campus_pilots.Community.Claim.{
  ItemStatus, LostFoundItem, ClaimStatus, pending, verified, rejected, cancelled, LostFoundClaim,
  SafeMeta, ClaimResponse, Tables, is_open_item, same_type, get_target_for_update,
}

instance abbrev pub claim_records : HasRecords Tables SafeMeta
claim_records = record {
  records = λ w. w.idempotency;
  with_records = λ rows w. record w { idempotency = rows };
  records-with = λ rows w. refl;
  with-records = λ w. refl;
}

-- `str(uuid)` and `UUID(text)`, and the AES-GCM cipher.
pub record Externals : Type 0 where
  pub uuid_text : ℕ → String
  pub parse_uuid : String → Option ℕ
  pub encrypt : String → String
  pub decrypt : String → String

pub record Call : Type 0 where
  pub idempotency_key : String
  pub request_id : String
  pub request_hash : String
  pub now : ℕ
  pub record_id : ℕ
  pub new_id : ℕ

pub record ClaimResult : Type 0 where
  pub status_code : ℕ
  pub body : ClaimResponse

-- `decision_value == "rejected"`
abbrev pub is_refusal : String → Bool
is_refusal decision = str_eq decision "rejected"

-- The texts that the table accepts as a status (`ck_lost_found_claims_status`).
unfoldable pub claim_status : String → Option ClaimStatus
claim_status value =
    if str_eq value "pending"
    then some pending
    else if str_eq value "verified"
    then some verified
    else if str_eq value "rejected"
    then some rejected
    else if str_eq value "cancelled"
    then some cancelled
    else if str_eq value "completed"
    then some ClaimStatus.completed
    else none

-- `len(text)`
unfoldable pub text_length : String → ℕ
text_length empty_text = zero
text_length (char c s) = suc (text_length s)

-- `reason is None or not 2 <= len(reason) <= 500`
abbrev pub is_bad_reason : Option String → Bool
is_bad_reason none = true
is_bad_reason (some r) = not (leb 2 (text_length r) && leb (text_length r) 500)

-- `existing or now`
abbrev pub or_now : Bool → Option ℕ → ℕ → Option ℕ
or_now true none now = some now
or_now true (some t) now = some t
or_now false t now = t

abbrev pub decided :
    Actor → String → ClaimStatus → Option String → ℕ → LostFoundClaim → LostFoundClaim
decided actor decision status reason now c = record c {
  status = status;
  decided_by = some actor.user_id;
  decided_at = some now;
  decision_reason = if is_refusal decision then reason else none;
  version = c.version + 1;
  updated_at = now;
}

-- The confirmations of the actor, who may be on both sides.
abbrev pub confirmed : Actor → ℕ → LostFoundItem → LostFoundClaim → LostFoundClaim
confirmed actor now target c = record c {
  claimant_confirmed_at = or_now (actor.user_id == c.claimant_user_id) c.claimant_confirmed_at now;
  owner_confirmed_at = or_now (actor.user_id == target.owner_user_id) c.owner_confirmed_at now;
  version = c.version + 1;
  updated_at = now;
}

abbrev pub is_agreed : LostFoundClaim → Bool
is_agreed c = is_some c.claimant_confirmed_at && is_some c.owner_confirmed_at

-- A claim that is completed was confirmed by both sides, which the table checks when it is asked to
-- store a decision (`ck_lost_found_claims_completed`).
abbrev pub is_sound : ClaimStatus → LostFoundClaim → Bool
is_sound ClaimStatus.completed c = is_agreed c && is_some c.completed_at
is_sound _ c = true

abbrev pub settled : ℕ → LostFoundClaim → LostFoundClaim
settled now c =
    if is_agreed c then record c { status = ClaimStatus.completed; completed_at = some now } else c

-- The items of the claim: its target and the claimant's own.
abbrev pub is_item_of : LostFoundClaim → LostFoundItem → Bool
is_item_of c i =
    i.id == c.target_item_id || elim c.claimant_item_id [ none ↦ false | some id ↦ i.id == id ]

abbrev pub settled_items : ℕ → LostFoundClaim → List LostFoundItem → List LostFoundItem
settled_items now c items =
    if is_agreed c
    then update_where (is_item_of c)
        (λ i. record i { status = ItemStatus.completed; completed_at = some now; updated_at = now })
        items
    else items

-- The claimant's own item must be another one, his, of the other type and open.
abbrev pub is_bad_item : Actor → LostFoundItem → LostFoundItem → Bool
is_bad_item actor target i =
    i.id == target.id
    || (not (i.owner_user_id == actor.user_id)
        || (same_type i.item_type target.item_type || not (is_open_item i.status)))

abbrev pub is_bad_claimant_item : Actor → LostFoundItem → Option ℕ → List LostFoundItem → Bool
is_bad_claimant_item actor target none items = false
is_bad_claimant_item actor target (some id) items = elim (get_target_for_update id items) [
  | none ↦ true
  | some i ↦ is_bad_item actor target i
]

abbrev pub new_claim : Externals → Actor → LostFoundItem → Option ℕ → String → Call → LostFoundClaim
new_claim x actor target claimant_item_id evidence call = record {
  id = call.new_id;
  target_item_id = target.id;
  claimant_item_id = claimant_item_id;
  claimant_user_id = actor.user_id;
  evidence_ciphertext = x.encrypt evidence;
  status = pending;
  decision_reason = none;
  decided_by = none;
  decided_at = none;
  claimant_confirmed_at = none;
  owner_confirmed_at = none;
  completed_at = none;
  version = 1;
  created_at = call.now;
  updated_at = call.now;
}
