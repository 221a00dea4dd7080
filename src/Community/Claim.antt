-- ===== src/Community/Claim.antt =====
-- The rows of `lost_found_items` and `lost_found_claims` (backend/app/modules/community/models.py) and
-- the queries of `LostFoundClaimRepository` (repositories.py).
pub mod Service
pub mod Answer
pub mod Operations
pub mod Confirmed
pub mod Kept
mod Tests
pub mod Decided
pub mod Completed
use campus_pilots.Base.{
  ℕ, String, Bool, true, false, not, ◌&&◌, ◌||◌, Option, none, some, List, ◌==◌, is_none, find, any,
  update_where,
}
use campus_pilots.Platform.Audit.{AuditLog}
use campus_pilots.Platform.Idempotency.{IdempotencyRecord}
use campus_pilots.Community.Event.{PublicProfile, PublicAuthorData}

pub data ItemStatus : Type 0 where
  pending_review published claiming completed closed rejected deleted : ItemStatus

pub data ItemType : Type 0 where
  lost found : ItemType

pub record LostFoundItem : Type 0 where
  pub id : ℕ
  pub owner_user_id : ℕ
  pub item_type : ItemType
  pub title : String
  pub status : ItemStatus
  pub completed_at : Option ℕ
  pub version : ℕ
  pub updated_at : ℕ
  pub deleted_at : Option ℕ

pub data ClaimStatus : Type 0 where
  pending verified rejected cancelled completed : ClaimStatus

pub record LostFoundClaim : Type 0 where
  pub id : ℕ
  pub target_item_id : ℕ
  pub claimant_item_id : Option ℕ
  pub claimant_user_id : ℕ
  pub evidence_ciphertext : String
  pub status : ClaimStatus
  pub decision_reason : Option String
  pub decided_by : Option ℕ
  pub decided_at : Option ℕ
  pub claimant_confirmed_at : Option ℕ
  pub owner_confirmed_at : Option ℕ
  pub completed_at : Option ℕ
  pub version : ℕ
  pub created_at : ℕ
  pub updated_at : ℕ

pub record ClaimData : Type 0 where
  pub id : ℕ
  pub target_item : LostFoundItem
  pub claimant_item_id : Option ℕ
  pub claimant : PublicAuthorData
  pub evidence : String
  pub status : ClaimStatus
  pub decision_reason : Option String
  pub claimant_confirmed : Bool
  pub owner_confirmed : Bool
  pub completed_at : Option ℕ
  pub version : ℕ
  pub created_at : ℕ
  pub updated_at : ℕ

-- The part of a response that the idempotency record keeps.
pub record SafeMeta : Type 0 where
  pub request_id : String
  pub timestamp : ℕ
  pub resource_id : String

-- `claim_response_body`
pub record ClaimResponse : Type 0 where
  pub content : ClaimData
  pub request_id : String
  pub timestamp : ℕ

pub record Tables : Type 0 where
  pub items : List LostFoundItem
  pub claims : List LostFoundClaim
  pub profiles : ℕ → Option PublicProfile
  pub idempotency : List (IdempotencyRecord SafeMeta)
  pub audit : List AuditLog

-- `item.status in {"published", "claiming"}`
abbrev pub is_open_item : ItemStatus → Bool
is_open_item published = true
is_open_item claiming = true
is_open_item _ = false

-- `status IN ('pending', 'verified')`
abbrev pub is_active : ClaimStatus → Bool
is_active pending = true
is_active verified = true
is_active _ = false

abbrev pub is_pending : ClaimStatus → Bool
is_pending pending = true
is_pending _ = false

abbrev pub is_verified : ClaimStatus → Bool
is_verified verified = true
is_verified _ = false

abbrev pub same_type : ItemType → ItemType → Bool
same_type lost lost = true
same_type found found = true
same_type _ _ = false

unfoldable pub get_item : ℕ → List LostFoundItem → Option LostFoundItem
get_item id items = find (λ i. i.id == id) items

-- `get_target_for_update`, `get_claimant_item`
unfoldable pub get_target_for_update : ℕ → List LostFoundItem → Option LostFoundItem
get_target_for_update id items = find (λ i. i.id == id && is_none i.deleted_at) items

abbrev pub owns_target : ℕ → List LostFoundItem → LostFoundClaim → Bool
owns_target user_id items c =
    any (λ i. i.id == c.target_item_id && i.owner_user_id == user_id) items

unfoldable pub get_visible :
    ℕ → ℕ → List LostFoundItem → List LostFoundClaim → Option LostFoundClaim
get_visible id user_id items claims =
    find (λ c. c.id == id && (c.claimant_user_id == user_id || owns_target user_id items c)) claims

unfoldable pub active_exists : ℕ → ℕ → List LostFoundClaim → Bool
active_exists target_id claimant_id claims =
    any
      (λ c.
        c.target_item_id == target_id && (c.claimant_user_id == claimant_id && is_active c.status))
      claims

unfoldable pub other_active_exists : ℕ → ℕ → List LostFoundClaim → Bool
other_active_exists target_id excluding claims =
    any (λ c. c.target_item_id == target_id && (not (c.id == excluding) && is_active c.status))
      claims

unfoldable pub write_item : LostFoundItem → List LostFoundItem → List LostFoundItem
write_item i items = update_where (λ y. y.id == i.id) (λ _. i) items

unfoldable pub write_claim : LostFoundClaim → List LostFoundClaim → List LostFoundClaim
write_claim c claims = update_where (λ y. y.id == c.id) (λ _. c) claims
