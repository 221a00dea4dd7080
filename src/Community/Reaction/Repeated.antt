-- ===== src/Community/Reaction/Repeated.antt =====
-- A reaction that is repeated changes nothing more.
use campus_pilots.Base.{
  ℕ, Bool, true, false, not, List, [], ◌∷◌, ◌≡◌, refl, ap, inl, inr, arith, Bool-cases, any, filter,
  ==_refl,
}
use campus_pilots.Community.Post.{ReactionType}
use campus_pilots.Community.Reaction.{Tables, ReactionActor, keyed, put, delete}
use campus_pilots.Community.Reaction.Counts.{put-cases, delete-cases, same_type_refl}

deleted-none {ℓ} :
    {A : Type ℓ} (k : A → Bool) (xs : List A) → any k (filter (λ x. not (k x)) xs) ≡ false
deleted-none k [] = refl
deleted-none k (x ∷ xs) = elim (Bool-cases (k x)) [
  | inl e ↦ rw e (deleted-none k xs)
  | inr e ↦ rw e (rw e (deleted-none k xs))
]

-- To react twice, or to take a reaction back twice, leaves the tables as once, whether or not the
-- requests succeed.
pub reaction-idempotent :
    (actor : ReactionActor) (post_id : ℕ) (t : ReactionType) (w : Tables)
    → ((put actor post_id t (put actor post_id t w).1).1 ≡ (put actor post_id t w).1)
      × ((delete actor post_id t (delete actor post_id t w).1).1 ≡ (delete actor post_id t w).1)
reaction-idempotent actor post_id t w = (
  elim (put-cases actor post_id t w) [
    | inl same ↦ ap (λ (v : Tables). (put actor post_id t v).1) same
    | inr (new, changed) ↦ elim (put-cases actor post_id t (put actor post_id t w).1) [
      | inl same ↦ same
      | inr (again, more) ↦
          let there : any (keyed post_id actor.user_id t) (put actor post_id t w).1.reactions
              ≡ true =
            rw changed (rw (==_refl post_id, ==_refl actor.user_id, same_type_refl t) refl) in
          absurd (ground (arith, there, again))
    ]
  ],
  elim (delete-cases actor post_id t w) [
    | inl same ↦ ap (λ (v : Tables). (delete actor post_id t v).1) same
    | inr (there, changed) ↦ elim (delete-cases actor post_id t (delete actor post_id t w).1) [
      | inl same ↦ same
      | inr (again, more) ↦
          let gone : any (keyed post_id actor.user_id t) (delete actor post_id t w).1.reactions
              ≡ false =
            rw changed (deleted-none (keyed post_id actor.user_id t) w.reactions) in
          absurd (ground (arith, gone, again))
    ]
  ],
)
