-- ===== src/Community/Post.antt =====
-- The rows of the tables `posts` and `post_reactions` (backend/app/modules/community/models.py).
use campus_pilots.Base.{ℕ, String, Bool, true, false, Option, ◌==◌}
use campus_pilots.Platform.Moderation.{RiskLevel}

pub data ContentStatus : Type 0 where
  pending_review published rejected hidden deleted : ContentStatus

abbrev pub is_published : ContentStatus → Bool
is_published published = true
is_published _ = false

abbrev pub is_pending : ContentStatus → Bool
is_pending pending_review = true
is_pending _ = false

pub record Post : Type 0 where
  pub id : ℕ
  pub topic_id : ℕ
  pub author_user_id : ℕ
  pub title : String
  pub content_markdown : String
  pub is_anonymous : Bool
  pub status : ContentStatus
  pub risk_level : RiskLevel
  pub moderation_case_id : Option ℕ
  pub moderation_policy_version : String
  pub like_count : ℕ
  pub favorite_count : ℕ
  pub comment_count : ℕ
  pub report_count : ℕ
  pub published_at : Option ℕ
  pub version : ℕ
  pub created_at : ℕ
  pub updated_at : ℕ
  pub deleted_at : Option ℕ

abbrev pub has_id : ℕ → Post → Bool
has_id post_id p = p.id == post_id

pub data ReactionType : Type 0 where
  like favorite : ReactionType

abbrev pub same_type : ReactionType → ReactionType → Bool
same_type like like = true
same_type favorite favorite = true
same_type _ _ = false

pub record PostReaction : Type 0 where
  pub post_id : ℕ
  pub user_id : ℕ
  pub reaction_type : ReactionType
