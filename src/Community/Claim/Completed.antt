-- ===== src/Community/Claim/Completed.antt =====
-- What a request to confirm a claim does when it succeeds: who confirms for whom.
use campus_pilots.Base.{
  ℕ, ◌+◌, true, false, String, ◌&&◌, ◌||◌, Option, none, some, List, refl, ap, ◌∙◌, ◌≡◌, ◌⊎◌, inl,
  inr, ◌==◌, ==→eq, Option-cases, Bool-cases, update_where, is_some, arith,
}
use Prim.Native.String.{◌++◌}
use campus_pilots.Exec.{ok, Result-cases}
use campus_pilots.Platform.Idempotency.{get_by_scope}
use campus_pilots.Community.Registration.{Actor}
use campus_pilots.Community.Claim.{
  ClaimStatus, LostFoundClaim, LostFoundItem, Tables, get_item, get_visible, is_verified,
  write_claim,
}
use campus_pilots.Community.Claim.Service.{
  Externals, Call, ClaimResult, confirmed, settled, is_agreed, or_now,
}
use campus_pilots.Community.Claim.Answer.{reply}
use campus_pilots.Community.Claim.Operations.{complete_work, complete, store_completion}
use campus_pilots.Community.Claim.Decided.{conclude_rows, raises, endpoint-free, scope_of, begun}

-- A time of confirmation stays, or the one who may set it sets it for the first time.
abbrev pub IsConfirmedBy : ℕ → ℕ → ℕ → Option ℕ → Option ℕ → Type 0
IsConfirmedBy user_id party now before after =
    (after ≡ before) ⊎ ((user_id ≡ party) × (before ≡ none) × (after ≡ some now))

or_now-IsConfirmedBy :
    (user_id party now : ℕ) (before : Option ℕ)
    → IsConfirmedBy user_id party now before (or_now (user_id == party) before now)
or_now-IsConfirmedBy user_id party now before = elim (Bool-cases (user_id == party)) [
  | inr other ↦ rw other (inl refl)
  | inl same ↦ elim (Option-cases before) [
    | inl empty ↦ rw (same, empty) (inr (==→eq user_id party same, refl, refl))
    | inr (t, set) ↦ rw (same, set) (inl refl)
  ]
]

-- An own confirmation is there afterwards.
or_now_own :
    (user_id party now : ℕ) (before : Option ℕ)
    → user_id ≡ party
    → is_some (or_now (user_id == party) before now) ≡ true
or_now_own user_id party now before same = elim (Option-cases before) [
  | inl empty ↦ rw empty (ground (arith, same))
  | inr (t, set) ↦ rw set (ground (arith, same))
]

-- The settlement leaves the confirmations and the version alone.
settled-same :
    (now : ℕ) (c : LostFoundClaim)
    → ((settled now c).claimant_confirmed_at ≡ c.claimant_confirmed_at)
      × ((settled now c).owner_confirmed_at ≡ c.owner_confirmed_at)
      × ((settled now c).version ≡ c.version)
      × ((settled now c).id ≡ c.id)
settled-same now c = elim (Bool-cases (is_agreed c)) [
  | inl yes_both ↦ rw yes_both (refl, refl, refl, refl)
  | inr not_both ↦ rw not_both (refl, refl, refl, refl)
]

settled-outcome :
    (now : ℕ) (c : LostFoundClaim)
    → ((is_agreed c ≡ true)
        × ((settled now c).status ≡ ClaimStatus.completed)
        × ((settled now c).completed_at ≡ some now))
      ⊎ ((is_agreed c ≡ false)
          × ((settled now c).status ≡ c.status)
          × ((settled now c).completed_at ≡ c.completed_at))
settled-outcome now c = elim (Bool-cases (is_agreed c)) [
  | inl yes_both ↦ inl (yes_both, rw yes_both refl, rw yes_both refl)
  | inr not_both ↦ inr (not_both, rw not_both refl, rw not_both refl)
]

module _ (x : Externals) (actor : Actor) (call : Call) where
  pub record Confirms (claim_id version : ℕ) (items : List LostFoundItem)
      (claims : List LostFoundClaim) (after : Tables) : Type 0 where
    pub claim : LostFoundClaim
    pub written : LostFoundClaim
    pub target : LostFoundItem
    pub claim_found : get_visible claim_id actor.user_id items claims ≡ some claim
    pub target_found : get_item claim.target_item_id items ≡ some target
    pub was_verified : is_verified claim.status ≡ true
    pub at_version : claim.version ≡ version
    pub takes_part :
        (actor.user_id == target.owner_user_id || actor.user_id == claim.claimant_user_id) ≡ true
    pub claims_after : after.claims ≡ update_where (λ y. y.id == claim.id) (λ _. written) claims
    pub by_claimant :
        IsConfirmedBy actor.user_id claim.claimant_user_id call.now claim.claimant_confirmed_at
          written.claimant_confirmed_at
    pub by_owner :
        IsConfirmedBy actor.user_id target.owner_user_id call.now claim.owner_confirmed_at
          written.owner_confirmed_at
    pub claimant_set :
        actor.user_id ≡ claim.claimant_user_id → is_some written.claimant_confirmed_at ≡ true
    pub owner_set : actor.user_id ≡ target.owner_user_id → is_some written.owner_confirmed_at ≡ true
    pub next_version : written.version ≡ claim.version + 1
    pub outcome :
        ((is_some written.claimant_confirmed_at && is_some written.owner_confirmed_at) ≡ true
          × (written.status ≡ ClaimStatus.completed)
          × (written.completed_at ≡ some call.now))
        ⊎ ((is_some written.claimant_confirmed_at && is_some written.owner_confirmed_at) ≡ false
            × (written.status ≡ claim.status)
            × (written.completed_at ≡ claim.completed_at))

  complete_work-cases :
      (claim_id version record_id : ℕ) (w : Tables)
      → let (answer, after) = complete_work x actor call claim_id version record_id w in
        (raises answer ≡ true) ⊎ Confirms claim_id version w.items w.claims after
  unfolding complete_work write_claim
  complete_work-cases claim_id version record_id w =
      elim (Option-cases (get_visible claim_id actor.user_id w.items w.claims)) [
        | inl f ↦ inl (rw f refl)
        | inr (c, f) ↦ elim (Bool-cases (is_verified c.status)) [
          | inr p ↦ inl (rw f (rw p refl))
          | inl p ↦ elim (Bool-cases (c.version == version)) [
            | inr v ↦ inl (rw f (rw p (rw v refl)))
            | inl v ↦ elim (Option-cases (get_item c.target_item_id w.items)) [
              | inl t ↦ inl (rw f (rw p (rw v (rw t refl))))
              | inr (target, t) ↦
                  elim (Bool-cases (
                    actor.user_id == target.owner_user_id || actor.user_id == c.claimant_user_id)) [
                      | inr o ↦ inl (rw f (rw p (rw v (rw t (rw o refl)))))
                      | inl o ↦
                          let agreed = confirmed actor call.now target c in
                          let (claimant, owner, kept, same_id) = settled-same call.now agreed in
                          let rows =
                            conclude_rows x actor call "community.lost_found.claim.complete" 200
                              record_id (settled call.now agreed)
                              (store_completion x actor call agreed w) in
                          inr (record {
                            claim = c;
                            written = settled call.now agreed;
                            target = target;
                            claim_found = f;
                            target_found = t;
                            was_verified = p;
                            at_version = ==→eq c.version version v;
                            takes_part = o;
                            claims_after = rw f (
                                rw p (
                                  rw v (
                                    rw t (
                                      rw o (
                                        rows.1
                                        ∙ ap
                                            (λ (n : ℕ).
                                              update_where (λ (y : LostFoundClaim). y.id == n)
                                                (λ _. settled call.now agreed) w.claims)
                                            same_id)))));
                            by_claimant = rw claimant (
                                or_now-IsConfirmedBy actor.user_id c.claimant_user_id call.now
                                  c.claimant_confirmed_at);
                            by_owner = rw owner (
                                or_now-IsConfirmedBy actor.user_id target.owner_user_id call.now
                                  c.owner_confirmed_at);
                            claimant_set = λ same. rw claimant (
                                or_now_own actor.user_id c.claimant_user_id call.now
                                  c.claimant_confirmed_at same);
                            owner_set = λ same. rw owner (
                                or_now_own actor.user_id target.owner_user_id call.now
                                  c.owner_confirmed_at same);
                            next_version = rw kept refl;
                            outcome = rw (claimant, owner) (settled-outcome call.now agreed);
                          })
                    ]
            ]
          ]
        ]
      ]

  -- `POST /api/v1/lost-found-claims/{claim_id}/completion`
  abbrev pub completion_endpoint : ℕ → String
  completion_endpoint claim_id =
      "POST /api/v1/lost-found-claims/" ++ (x.uuid_text claim_id ++ "/completion")

  -- A confirmation under a free idempotency key that returns has passed every guard: the claim is one
  -- that the actor sees, verified and at the version of the request, and the actor is its claimant or
  -- the owner of its item. It writes exactly the row of the claim: a confirmation that is there stays, only
  -- the claimant sets the claimant's and only the owner the owner's, and the actor's own are set then; the claim is
  -- completed, at this time, exactly if both are set then.
  pub complete-Confirms :
      (claim_id version : ℕ) (w : Tables) (r : ClaimResult)
      → get_by_scope (scope_of x actor call (completion_endpoint claim_id)) w.idempotency ≡ none
      → (complete x actor call claim_id version w).0 ≡ ok r
      → Confirms claim_id version w.items w.claims (complete x actor call claim_id version w).1
  unfolding complete
  complete-Confirms claim_id version w r free returned =
      let shape =
        endpoint-free x actor call (completion_endpoint claim_id) (reply x actor call 200 claim_id)
          (complete_work x actor call claim_id version) w free in
      let before = begun x actor call (completion_endpoint claim_id) w in
      let done = complete_work x actor call claim_id version call.record_id before in
      elim (Result-cases done.0) [
        | inr (e, bad) ↦ (let k = rw (shape, bad) at returned in cc)
        | inl (a, fine) ↦ elim (complete_work-cases claim_id version call.record_id before) [
          | inl bad ↦ absurd (ground (arith, bad, fine))
          | inr h ↦ rw (shape, fine) h
        ]
      ]
