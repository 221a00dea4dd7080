-- ===== src/Community/Reaction/Counts.antt =====
-- The counters of a post are the numbers of its reactions.
use campus_pilots.Base.{
  ℕ, ◌+◌, ◌≤◌, Bool, true, false, not, ◌&&◌, List, [], ◌∷◌, ◌≡◌, refl, ◌∙◌, ◌⊎◌, inl, inr, arith,
  Bool-cases, Option-cases, if◌then◌else◌, ◌==◌, ==→eq, any, filter, update_where, count_where, All,
  All-update_where,
}
use campus_pilots.Community.Post.{
  Post, PostReaction, ReactionType, like, favorite, same_type, has_id, is_published, is_pending,
}
use campus_pilots.Community.Reaction.{
  Tables, ReactionActor, Request, putting, deleting, get_post_for_update, keyed, new_reaction,
  insert, delete_row, counted, adjust_count, up, down, is_privileged, put, delete, serve, serve_all,
}

-- A reaction of this type to this post.
abbrev pub reacts : ℕ → ReactionType → PostReaction → Bool
reacts post_id t r = r.post_id == post_id && same_type r.reaction_type t

abbrev pub count_of : ReactionType → Post → ℕ
count_of like p = p.like_count
count_of favorite p = p.favorite_count

-- The counters of one post agree with the rows.
abbrev pub IsCountedPost : List PostReaction → Post → Type 0
IsCountedPost rows p =
    (p.like_count ≡ count_where (reacts p.id like) rows)
    × (p.favorite_count ≡ count_where (reacts p.id favorite) rows)

-- Every counter is the number of its rows, and a user has one reaction of a type to a post.
abbrev pub IsCounted : Tables → Type 0
IsCounted w =
    All (IsCountedPost w.reactions) w.posts
    × ((post_id user_id : ℕ) (t : ReactionType)
        → count_where (keyed post_id user_id t) w.reactions ≤ 1)

abbrev pub put_tables : ReactionActor → ℕ → ReactionType → Tables → Tables
put_tables actor post_id t w = record {
  posts = update_where (has_id post_id) (counted t up) w.posts;
  reactions = new_reaction post_id actor.user_id t ∷ w.reactions;
}

abbrev pub deleted_tables : ReactionActor → ℕ → ReactionType → Tables → Tables
deleted_tables actor post_id t w = record {
  posts = update_where (has_id post_id) (counted t down) w.posts;
  reactions = filter (λ r. not (keyed post_id actor.user_id t r)) w.reactions;
}

filter-none {ℓ} :
    {A : Type ℓ} (k : A → Bool) (xs : List A) → any k xs ≡ false → filter (λ x. not (k x)) xs ≡ xs
filter-none k [] h = refl
filter-none k (x ∷ xs) h = ground (arith, filter-none k xs)

pub put-cases :
    (actor : ReactionActor) (post_id : ℕ) (t : ReactionType) (w : Tables)
    → ((put actor post_id t w).1 ≡ w)
      ⊎ ((any (keyed post_id actor.user_id t) w.reactions ≡ false)
          × ((put actor post_id t w).1 ≡ put_tables actor post_id t w))
unfolding put get_post_for_update insert adjust_count
put-cases actor post_id t w = elim (Option-cases (get_post_for_update post_id w)) [
  | inl missing ↦ inl (rw missing refl)
  | inr (p, found) ↦ elim (Bool-cases (is_published p.status)) [
    | inr shut ↦ elim (Bool-cases (is_privileged actor p && is_pending p.status)) [
      | inl a ↦ inl (rw (found, shut, a) refl)
      | inr a ↦ inl (rw (found, shut, a) refl)
    ]
    | inl shown ↦ elim (Bool-cases (any (keyed post_id actor.user_id t) w.reactions)) [
      | inl there ↦ inl (rw (found, shown, there) refl)
      | inr new ↦ inr (new, rw (found, shown, new) refl)
    ]
  ]
]

pub delete-cases :
    (actor : ReactionActor) (post_id : ℕ) (t : ReactionType) (w : Tables)
    → ((delete actor post_id t w).1 ≡ w)
      ⊎ ((any (keyed post_id actor.user_id t) w.reactions ≡ true)
          × ((delete actor post_id t w).1 ≡ deleted_tables actor post_id t w))
unfolding delete get_post_for_update delete_row adjust_count
delete-cases actor post_id t w = elim (Option-cases (get_post_for_update post_id w)) [
  | inl missing ↦ inl (rw missing refl)
  | inr (p, found) ↦ elim (Bool-cases (is_published p.status)) [
    | inr shut ↦ inl (rw (found, shut) refl)
    | inl shown ↦ elim (Bool-cases (any (keyed post_id actor.user_id t) w.reactions)) [
      | inr none_there ↦ inl (
          rw (found, shown, none_there)
            (rw (filter-none (keyed post_id actor.user_id t) w.reactions none_there) refl))
      | inl there ↦ inr (there, rw (found, shown, there) refl)
    ]
  ]
]

none-count {ℓ} : {A : Type ℓ} (p : A → Bool) (xs : List A) → any p xs ≡ false → count_where p xs ≡ 0
none-count p [] h = refl
none-count p (x ∷ xs) h = ground (arith, none-count p xs)

some-count {ℓ} : {A : Type ℓ} (p : A → Bool) (xs : List A) → any p xs ≡ true → 1 ≤ count_where p xs
some-count p [] h = cc
some-count p (x ∷ xs) h = ground (arith, some-count p xs)

-- A count splits by what a deletion takes and leaves.
count-split {ℓ} :
    {A : Type ℓ} (q k : A → Bool) (xs : List A)
    → count_where q xs
      ≡ count_where q (filter (λ x. not (k x)) xs) + count_where (λ x. k x && q x) xs
count-split q k [] = refl
count-split q k (x ∷ xs) = ground (arith, count-split q k xs)

pub same_type_refl : (t : ReactionType) → same_type t t ≡ true
same_type_refl like = refl
same_type_refl favorite = refl

count-ext {ℓ} :
    {A : Type ℓ} (p q : A → Bool)
    → ((x : A) → p x ≡ q x)
    → (xs : List A) → count_where p xs ≡ count_where q xs
count-ext p q h [] = refl
count-ext p q h (x ∷ xs) = rw (h x, count-ext p q h xs) refl

same_type_trans :
    (a t t' : ReactionType) → (same_type a t && same_type a t') ≡ (same_type t t' && same_type a t)
same_type_trans like like like = refl
same_type_trans like like favorite = refl
same_type_trans like favorite like = refl
same_type_trans like favorite favorite = refl
same_type_trans favorite like like = refl
same_type_trans favorite like favorite = refl
same_type_trans favorite favorite like = refl
same_type_trans favorite favorite favorite = refl

-- Of the rows of a key, those that react are all or none.
keyed-reacts :
    (post_id user_id id : ℕ) (t t' : ReactionType) (r : PostReaction)
    → (keyed post_id user_id t r && reacts id t' r)
      ≡ ((post_id == id && same_type t t') && keyed post_id user_id t r)
keyed-reacts post_id user_id id t t' r = ground (arith, same_type_trans r.reaction_type t t')

count-and {ℓ} :
    {A : Type ℓ} (b : Bool) (p : A → Bool) (xs : List A)
    → count_where (λ x. b && p x) xs ≡ (if b then count_where p xs else 0)
count-and true p xs = refl
count-and false p [] = refl
count-and false p (x ∷ xs) = omega (arith, count-and false p xs)

-- What a deletion leaves, for a post and a type.
deleted-count :
    (post_id user_id id : ℕ) (t t' : ReactionType) (rows : List PostReaction)
    → any (keyed post_id user_id t) rows ≡ true
    → count_where (keyed post_id user_id t) rows ≤ 1
    → count_where (reacts id t') rows
      ≡ count_where (reacts id t') (filter (λ r. not (keyed post_id user_id t r)) rows)
        + (if post_id == id && same_type t t' then 1 else 0)
deleted-count post_id user_id id t t' rows there one =
    let k = keyed post_id user_id t in
    let exact : count_where k rows ≡ 1 = omega (arith, some-count k rows there) in
    let gone =
      count-ext (λ (r : PostReaction). k r && reacts id t' r)
        (λ (r : PostReaction). (post_id == id && same_type t t') && k r)
        (keyed-reacts post_id user_id id t t') rows
      ∙ count-and (post_id == id && same_type t t') k rows in
    count-split (reacts id t') k rows ∙ ground (arith, gone, exact)

put-post :
    (post_id user_id : ℕ) (t : ReactionType) (rows : List PostReaction) (p : Post)
    → has_id post_id p ≡ true
    → IsCountedPost rows p
    → IsCountedPost (new_reaction post_id user_id t ∷ rows) (counted t up p)
put-post post_id user_id like rows p hit (l, f) = (ground (arith, hit, l), ground (arith, hit, f))
put-post post_id user_id favorite rows p hit (l, f) =
    (ground (arith, hit, l), ground (arith, hit, f))

put-other :
    (post_id user_id : ℕ) (t : ReactionType) (rows : List PostReaction) (p : Post)
    → has_id post_id p ≡ false
    → IsCountedPost rows p
    → IsCountedPost (new_reaction post_id user_id t ∷ rows) p
put-other post_id user_id t rows p miss (l, f) = (ground (arith, miss, l), ground (arith, miss, f))

same_type→eq : (a b : ReactionType) → same_type a b ≡ true → a ≡ b
same_type→eq like like h = refl
same_type→eq like favorite h = cc
same_type→eq favorite like h = cc
same_type→eq favorite favorite h = refl

put_unique :
    (post_id user_id : ℕ) (t : ReactionType) (rows : List PostReaction) (id user : ℕ)
    (t' : ReactionType)
    → any (keyed post_id user_id t) rows ≡ false
    → count_where (keyed id user t') rows ≤ 1
    → count_where (keyed id user t') (new_reaction post_id user_id t ∷ rows) ≤ 1
put_unique post_id user_id t rows id user t' new unique =
    elim (Bool-cases (keyed id user t' (new_reaction post_id user_id t))) [
      | inl e ↦
          let same_post : post_id ≡ id = ==→eq post_id id (ground (arith, e)) in
          let same_user : user_id ≡ user = ==→eq user_id user (ground (arith, e)) in
          let same : t ≡ t' = same_type→eq t t' (ground (arith, e)) in
          let before : count_where (keyed id user t') rows ≡ 0 =
            rw (← same_post, ← same_user, ← same) (none-count (keyed post_id user_id t) rows new) in
          rw (e, before) (omega arith)
      | inr e ↦ rw e (omega (arith, unique))
    ]

put-IsCounted :
    (actor : ReactionActor) (post_id : ℕ) (t : ReactionType) (w : Tables)
    → any (keyed post_id actor.user_id t) w.reactions ≡ false
    → IsCounted w
    → IsCounted (put_tables actor post_id t w)
put-IsCounted actor post_id t w new (counts, unique) = (
  All-update_where (IsCountedPost w.reactions)
      (IsCountedPost (new_reaction post_id actor.user_id t ∷ w.reactions)) (has_id post_id)
      (counted t up) (λ p hit h. put-post post_id actor.user_id t w.reactions p hit h)
      (λ p miss h. put-other post_id actor.user_id t w.reactions p miss h) w.posts counts,
  λ id user t'. put_unique post_id actor.user_id t w.reactions id user t' new (unique id user t'),
)

module _ (post_id user_id : ℕ) (rows : List PostReaction) where
  abbrev left : ReactionType → List PostReaction
  left t = filter (λ r. not (keyed post_id user_id t r)) rows

  deleted-post :
      (t : ReactionType) (p : Post)
      → any (keyed post_id user_id t) rows ≡ true
      → count_where (keyed post_id user_id t) rows ≤ 1
      → has_id post_id p ≡ true
      → IsCountedPost rows p
      → IsCountedPost (left t) (counted t down p)
  deleted-post like p there one hit (l, f) =
      let a = deleted-count post_id user_id p.id like like rows there one in
      let b = deleted-count post_id user_id p.id like favorite rows there one in
      (ground (arith, hit, l, a), ground (arith, hit, f, b))
  deleted-post favorite p there one hit (l, f) =
      let a = deleted-count post_id user_id p.id favorite like rows there one in
      let b = deleted-count post_id user_id p.id favorite favorite rows there one in
      (ground (arith, hit, l, a), ground (arith, hit, f, b))

  deleted-other :
      (t : ReactionType) (p : Post)
      → any (keyed post_id user_id t) rows ≡ true
      → count_where (keyed post_id user_id t) rows ≤ 1
      → has_id post_id p ≡ false
      → IsCountedPost rows p
      → IsCountedPost (left t) p
  deleted-other t p there one miss (l, f) =
      let a = deleted-count post_id user_id p.id t like rows there one in
      let b = deleted-count post_id user_id p.id t favorite rows there one in
      (ground (arith, miss, l, a), ground (arith, miss, f, b))

filter-count {ℓ} :
    {A : Type ℓ} (q k : A → Bool) (xs : List A) → count_where q (filter k xs) ≤ count_where q xs
filter-count q k [] = omega arith
filter-count q k (x ∷ xs) = ground (arith, filter-count q k xs)

deleted-IsCounted :
    (actor : ReactionActor) (post_id : ℕ) (t : ReactionType) (w : Tables)
    → any (keyed post_id actor.user_id t) w.reactions ≡ true
    → IsCounted w
    → IsCounted (deleted_tables actor post_id t w)
deleted-IsCounted actor post_id t w there (counts, unique) =
    let user = actor.user_id in
    let one = unique post_id user t in
    (
      All-update_where (IsCountedPost w.reactions) (IsCountedPost (left post_id user w.reactions t))
          (has_id post_id) (counted t down)
          (λ p hit h. deleted-post post_id user w.reactions t p there one hit h)
          (λ p miss h. deleted-other post_id user w.reactions t p there one miss h) w.posts counts,
      λ id other t'. omega (
        arith,
        unique id other t',
        filter-count (keyed id other t') (λ r. not (keyed post_id user t r)) w.reactions,
      ),
    )

serve-IsCounted : (r : Request) (w : Tables) → IsCounted w → IsCounted (serve r w).1
serve-IsCounted (putting actor post_id t) w h = elim (put-cases actor post_id t w) [
  | inl same ↦ rw same h
  | inr (new, changed) ↦ rw changed (put-IsCounted actor post_id t w new h)
]
serve-IsCounted (deleting actor post_id t) w h = elim (delete-cases actor post_id t w) [
  | inl same ↦ rw same h
  | inr (there, changed) ↦ rw changed (deleted-IsCounted actor post_id t w there h)
]

-- Requests to react and to take a reaction back, in any order and number, keep the like and favorite
-- counters of every post equal to the numbers of its reactions, and a user has at most one
-- reaction of a type to a post.
pub serve_all-IsCounted :
    (rs : List Request) (w : Tables) → IsCounted w → IsCounted (serve_all rs w)
serve_all-IsCounted [] w h = h
serve_all-IsCounted (r ∷ rs) w h = serve_all-IsCounted rs (serve r w).1 (serve-IsCounted r w h)
