-- ===== src/Community/Reaction.antt =====
-- backend/app/modules/community/reactions.py: `ReactionService`, with `ReactionRepository`
-- (repositories.py).
pub mod Counts
pub mod Repeated
mod Tests
use campus_pilots.Base.{
  ℕ, suc, ◌+◌, ◌-◌, String, Bool, true, false, not, ◌&&◌, ◌||◌, Option, none, some, List, [], ◌∷◌,
  ◌==◌, any, find, filter, update_where, is_none, if◌then◌else◌, str_eq,
}
use campus_pilots.Errors.{post_not_found, community_content_pending_review}
use campus_pilots.Exec.{Exec, ok, pure, gets, require, raise_if, modify, atomically, ◌>>=◌, ◌>>◌}
use campus_pilots.Community.Post.{
  Post, PostReaction, ReactionType, like, favorite, same_type, has_id, is_published, is_pending,
}

pub record Tables : Type 0 where
  pub posts : List Post
  pub reactions : List PostReaction

pub record ReactionData : Type 0 where
  pub post_id : ℕ
  pub reaction_type : ReactionType
  pub active : Bool
  pub like_count : ℕ
  pub favorite_count : ℕ

pub record ReactionActor : Type 0 where
  pub user_id : ℕ
  pub permissions : List String

unfoldable pub get_post_for_update : ℕ → Tables → Option Post
get_post_for_update post_id w = find (λ p. has_id post_id p && is_none p.deleted_at) w.posts

-- The primary key of a reaction.
abbrev pub keyed : ℕ → ℕ → ReactionType → PostReaction → Bool
keyed post_id user_id t r =
    r.post_id == post_id && (r.user_id == user_id && same_type r.reaction_type t)

abbrev pub new_reaction : ℕ → ℕ → ReactionType → PostReaction
new_reaction post_id user_id t = record { post_id = post_id; user_id = user_id; reaction_type = t }

-- `INSERT … ON CONFLICT DO NOTHING`, and whether a row was inserted.
unfoldable pub insert : ℕ → ℕ → ReactionType → Exec Tables Bool
insert post_id user_id t w =
    if any (keyed post_id user_id t) w.reactions
    then (ok false, w)
    else (ok true, record w { reactions = new_reaction post_id user_id t ∷ w.reactions })

-- `DELETE … RETURNING`, and whether a row was deleted.
unfoldable pub delete_row : ℕ → ℕ → ReactionType → Exec Tables Bool
delete_row post_id user_id t w = (
  ok (any (keyed post_id user_id t) w.reactions),
  record w { reactions = filter (λ r. not (keyed post_id user_id t r)) w.reactions },
)

abbrev pub counted : ReactionType → (ℕ → ℕ) → Post → Post
counted like f p = record p { like_count = f p.like_count }
counted favorite f p = record p { favorite_count = f p.favorite_count }

abbrev pub counts_of : Option Post → ℕ × ℕ
counts_of none = (0, 0)
counts_of (some p) = (p.like_count, p.favorite_count)

-- The change of a counter by 1 or by -1, which stops at 0, and both counters after it.
unfoldable pub adjust_count : ℕ → ReactionType → (ℕ → ℕ) → Exec Tables (ℕ × ℕ)
adjust_count post_id t f w =
    let posts = update_where (has_id post_id) (counted t f) w.posts in
    (ok (counts_of (find (has_id post_id) posts)), record w { posts = posts })

abbrev pub up : ℕ → ℕ
up n = suc n

abbrev pub down : ℕ → ℕ
down n = n - 1

abbrev pub reaction_data : ℕ → ReactionType → Bool → ℕ × ℕ → ReactionData
reaction_data post_id t active (likes, favorites) = record {
  post_id = post_id;
  reaction_type = t;
  active = active;
  like_count = likes;
  favorite_count = favorites;
}

abbrev pub is_privileged : ReactionActor → Post → Bool
is_privileged actor p =
    p.author_user_id == actor.user_id || any (str_eq "community:moderate") actor.permissions

unfoldable pub put : ReactionActor → ℕ → ReactionType → Exec Tables ReactionData
unfolding get_post_for_update insert adjust_count
put actor post_id t = atomically (do
  row ← gets (get_post_for_update post_id)
  p ← require row post_not_found
  raise_if (not (is_published p.status) && (is_privileged actor p && is_pending p.status))
      community_content_pending_review
  raise_if (not (is_published p.status)) post_not_found
  inserted ← insert post_id actor.user_id t
  counts ← if inserted then adjust_count post_id t up else pure (p.like_count, p.favorite_count)
  pure (reaction_data post_id t true counts))

unfoldable pub delete : ReactionActor → ℕ → ReactionType → Exec Tables ReactionData
unfolding get_post_for_update delete_row adjust_count
delete actor post_id t = atomically (do
  row ← gets (get_post_for_update post_id)
  p ← require row post_not_found
  raise_if (not (is_published p.status)) post_not_found
  removed ← delete_row post_id actor.user_id t
  counts ← if removed then adjust_count post_id t down else pure (p.like_count, p.favorite_count)
  pure (reaction_data post_id t false counts))

pub data Request : Type 0 where
  putting deleting : ReactionActor → ℕ → ReactionType → Request

abbrev pub serve : Request → Exec Tables ReactionData
serve (putting actor post_id t) = put actor post_id t
serve (deleting actor post_id t) = delete actor post_id t

-- The tables after some requests, the first of the list first.
abbrev pub serve_all : List Request → Tables → Tables
serve_all [] w = w
serve_all (r ∷ rs) w = serve_all rs (serve r w).1
