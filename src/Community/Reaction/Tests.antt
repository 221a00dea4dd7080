-- ===== src/Community/Reaction/Tests.antt =====
-- Reactions of two users to one post.
use campus_pilots.Base.{ℕ, false, none, some, List, [], ◌∷◌, ◌≡◌, refl, arith}
use campus_pilots.Platform.Moderation.{low}
use campus_pilots.Community.Post.{Post, published, like, favorite}
use campus_pilots.Community.Reaction.{
  Tables, ReactionActor, Request, putting, deleting, serve_all, put, delete, insert, delete_row,
  adjust_count, get_post_for_update,
}
use campus_pilots.Community.Reaction.Counts.{IsCounted, serve_all-IsCounted}
use campus_pilots.Community.Reaction.Repeated.{reaction-idempotent}

abbrev post : Post
post = record {
  id = 3;
  topic_id = 1;
  author_user_id = 7;
  title = "lamp";
  content_markdown = "light";
  is_anonymous = false;
  status = published;
  risk_level = low;
  moderation_case_id = none;
  moderation_policy_version = "m4-sensitive-v1";
  like_count = 0;
  favorite_count = 0;
  comment_count = 0;
  report_count = 0;
  published_at = some 5;
  version = 1;
  created_at = 5;
  updated_at = 5;
  deleted_at = none;
}

abbrev tables : Tables
tables = record { posts = post ∷ []; reactions = [] }

abbrev actor : ℕ → ReactionActor
actor n = record { user_id = n; permissions = [] }

abbrev requests : List Request
requests =
    putting (actor 1) 3 like
    ∷ putting (actor 2) 3 like
    ∷ putting (actor 1) 3 like
    ∷ putting (actor 1) 3 favorite
    ∷ deleting (actor 2) 3 like
    ∷ []

one_like :
    (serve_all requests tables).posts ≡ record post { like_count = 1; favorite_count = 1 } ∷ []
unfolding put delete insert delete_row adjust_count get_post_for_update
one_like = refl

serve_all-IsCounted_example : IsCounted (serve_all requests tables)
serve_all-IsCounted_example =
    serve_all-IsCounted requests tables (((refl, refl), tt), λ post_id user_id t. omega arith)

reaction-idempotent_example :
    ((put (actor 1) 3 like (put (actor 1) 3 like tables).1).1 ≡ (put (actor 1) 3 like tables).1)
    × ((delete (actor 1) 3 like (delete (actor 1) 3 like tables).1).1
        ≡ (delete (actor 1) 3 like tables).1)
reaction-idempotent_example = reaction-idempotent (actor 1) 3 like tables
