-- ===== src/Community/Claim/Confirmed.antt =====
-- No claim is completed before both sides have confirmed it.
use campus_pilots.Base.{
  ℕ, String, true, ◌||◌, Option, List, ◌≡◌, inl, inr, refl, arith, ◌==◌, All, All-update_where,
  Option-cases, Bool-cases, subst⁻¹,
}
use campus_pilots.Exec.Keeps.{Keeps}
use campus_pilots.Community.Registration.{Actor}
use campus_pilots.Community.Claim.{
  LostFoundClaim, Tables, get_visible, get_item, get_target_for_update, active_exists, write_claim,
  is_pending, is_verified,
}
use campus_pilots.Community.Claim.Service.{
  Externals, Call, claim_status, is_sound, decided, confirmed, settled, is_agreed, new_claim,
  is_bad_claimant_item,
}
use campus_pilots.Community.Claim.Answer.{conclude}
use campus_pilots.Community.Claim.Operations.{
  create_work, decide_work, complete_work, open_target, store_decision, store_completion,
  store_claim,
}
use campus_pilots.Community.Claim.Decided.{conclude_rows}

-- Every claim that is completed was confirmed by both sides.
abbrev pub IsConfirmed : Tables → Type 0
IsConfirmed w = All (λ (c : LostFoundClaim). is_sound c.status c ≡ true) w.claims

written-IsConfirmed :
    (c : LostFoundClaim) (claims : List LostFoundClaim)
    → is_sound c.status c ≡ true
    → All (λ (c : LostFoundClaim). is_sound c.status c ≡ true) claims
    → All (λ (c : LostFoundClaim). is_sound c.status c ≡ true) (write_claim c claims)
unfolding write_claim
written-IsConfirmed c claims h =
    All-update_where _ _ (λ y. y.id == c.id) (λ _. c) (λ y hit old. h) (λ y miss old. old) claims

settled-is_sound :
    (now : ℕ) (c : LostFoundClaim)
    → is_verified c.status ≡ true
    → is_sound (settled now c).status (settled now c) ≡ true
settled-is_sound now c v = elim (Bool-cases (is_agreed c)) [
  | inl e ↦ rw e (rw e refl)
  | inr e ↦ rw e (ground (arith, v))
]

module _ (x : Externals) (actor : Actor) (call : Call) where
  concluded :
      (action : String) (status record_id : ℕ) (c : LostFoundClaim)
      → Keeps IsConfirmed (conclude x actor call action status record_id c)
  concluded action status record_id c w h =
      subst⁻¹ (All (λ (c : LostFoundClaim). is_sound c.status c ≡ true))
        (conclude_rows x actor call action status record_id c w).1 h

  pub decide_work-Keeps :
      (claim_id : ℕ) (d : String) (reason : Option String) (version record_id : ℕ)
      → Keeps IsConfirmed (decide_work x actor call claim_id d reason version record_id)
  unfolding decide_work
  decide_work-Keeps claim_id d reason version record_id w h =
      elim (Option-cases (get_visible claim_id actor.user_id w.items w.claims)) [
        | inl f ↦ rw f h
        | inr (c, f) ↦ elim (Option-cases (get_target_for_update c.target_item_id w.items)) [
          | inl t ↦ rw f (rw t h)
          | inr (target, t) ↦ elim (Bool-cases (target.owner_user_id == actor.user_id)) [
            | inr o ↦ rw f (rw t (rw o h))
            | inl o ↦ elim (Bool-cases (is_pending c.status)) [
              | inr p ↦ rw f (rw t (rw o (rw p h)))
              | inl p ↦ elim (Bool-cases (c.version == version)) [
                | inr v ↦ rw f (rw t (rw o (rw p (rw v h))))
                | inl v ↦ elim (Option-cases (claim_status d)) [
                  | inl none_such ↦ rw f (rw t (rw o (rw p (rw v (rw none_such h)))))
                  | inr (s, named) ↦
                      let c' = decided actor d s reason call.now c in
                      elim (Bool-cases (is_sound s c')) [
                        | inr bad ↦ rw f (rw t (rw o (rw p (rw v (rw named (rw bad h))))))
                        | inl good ↦
                            let stored = written-IsConfirmed c' w.claims good h in
                            rw f (
                              rw t (
                                rw o (
                                  rw p (
                                    rw v (
                                      rw named (
                                        rw good (
                                          concluded "community.lost_found.claim.decide" 200
                                            record_id c'
                                            (store_decision x actor call d s reason c target w)
                                            stored)))))))
                      ]
                ]
              ]
            ]
          ]
        ]
      ]

  pub complete_work-Keeps :
      (claim_id version record_id : ℕ)
      → Keeps IsConfirmed (complete_work x actor call claim_id version record_id)
  unfolding complete_work
  complete_work-Keeps claim_id version record_id w h =
      elim (Option-cases (get_visible claim_id actor.user_id w.items w.claims)) [
        | inl f ↦ rw f h
        | inr (c, f) ↦ elim (Bool-cases (is_verified c.status)) [
          | inr p ↦ rw f (rw p h)
          | inl p ↦ elim (Bool-cases (c.version == version)) [
            | inr v ↦ rw f (rw p (rw v h))
            | inl v ↦ elim (Option-cases (get_item c.target_item_id w.items)) [
              | inl t ↦ rw f (rw p (rw v (rw t h)))
              | inr (target, t) ↦
                  elim (Bool-cases (
                    actor.user_id == target.owner_user_id || actor.user_id == c.claimant_user_id)) [
                      | inr o ↦ rw f (rw p (rw v (rw t (rw o h))))
                      | inl o ↦ rw f (
                          rw p (
                            rw v (
                              rw t (
                                rw o (
                                  concluded "community.lost_found.claim.complete" 200 record_id
                                    (settled call.now (confirmed actor call.now target c))
                                    (store_completion x actor call
                                      (confirmed actor call.now target c) w)
                                    (written-IsConfirmed
                                      (settled call.now (confirmed actor call.now target c))
                                      w.claims
                                      (settled-is_sound call.now (confirmed actor call.now target c)
                                        p)
                                      h))))))
                    ]
            ]
          ]
        ]
      ]

  pub create_work-Keeps :
      (target_id : ℕ) (item : Option ℕ) (evidence : String) (record_id : ℕ)
      → Keeps IsConfirmed (create_work x actor call target_id item evidence record_id)
  unfolding create_work
  create_work-Keeps target_id item evidence record_id w h =
      elim (Option-cases (open_target x actor call (get_target_for_update target_id w.items))) [
        | inl t ↦ rw t h
        | inr (target, t) ↦ elim (Bool-cases (target.owner_user_id == actor.user_id)) [
          | inl o ↦ rw t (rw o h)
          | inr o ↦ elim (Bool-cases (active_exists target_id actor.user_id w.claims)) [
            | inl a ↦ rw t (rw o (rw a h))
            | inr a ↦ elim (Bool-cases (is_bad_claimant_item actor target item w.items)) [
              | inl b ↦ rw t (rw o (rw a (rw b h)))
              | inr b ↦ rw t (
                  rw o (
                    rw a (
                      rw b (
                        concluded "community.lost_found.claim.create" 201 record_id
                          (new_claim x actor target item evidence call)
                          (store_claim x actor call (new_claim x actor target item evidence call)
                            target w)
                          (refl, h)))))
            ]
          ]
        ]
      ]
