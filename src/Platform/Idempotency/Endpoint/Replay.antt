-- ===== src/Platform/Idempotency/Endpoint/Replay.antt =====
-- A repeated request is answered from the stored record.
use campus_pilots.Base.{
  true, false, none, some, ◌∷◌, ◌≡◌, arith, str_eq, eq_refl, any, inl, inr, Option-cases, ap, ◌∙◌,
  is_some, ==_refl, update_where,
}
use campus_pilots.Errors.{AppError}
use campus_pilots.Exec.{ok, raised, Exec, Result-cases, atomically}
use campus_pilots.Platform.Idempotency.{
  IdempotencyRecord, begin, complete, get_by_scope, in_scope, new_record, close, is_open,
}
use campus_pilots.Platform.Idempotency.Laws.{find-any, new-in_scope}
use campus_pilots.Platform.Idempotency.Endpoint.{HasRecords, Answer, Completion, Request, once}

module _ {W B : Type 0} (t : HasRecords W B) where
  -- The work leaves the idempotency records alone.
  abbrev pub Frames : Exec W (Completion B) → Type 0
  Frames work = (w : W) → t.records (work w).1 ≡ t.records w

  -- The tables hold a closed record of the request with this answer.
  pub record IsAnswered (rq : Request) (a : Answer B) (w : W) : Type 0 where
    pub row : IdempotencyRecord B
    pub found : get_by_scope rq.scope (t.records w) ≡ some row
    pub hash : str_eq row.request_hash rq.request_hash ≡ true
    pub status : row.response_status ≡ some a.status_code
    pub body : row.response_body ≡ a.body

  pub once-IsAnswered :
      (rq : Request) (a : Answer B) (w : W) (work : Exec W (Completion B))
      → IsAnswered rq a w
      → once t rq work w ≡ (ok a, w)
  unfolding once begin
  once-IsAnswered rq a w work h =
      ground (arith, h.found, h.hash, h.status, h.body, t.with-records w)

  -- The tables on which the work of a new request runs.
  abbrev opened : Request → W → W
  opened rq w =
      t.with_records (new_record rq.scope rq.request_hash rq.record_id rq.now ∷ t.records w) w

  free :
      (rq : Request) (w : W)
      → get_by_scope rq.scope (t.records w) ≡ none
      → any (in_scope rq.scope) (t.records w) ≡ false
  unfolding get_by_scope
  free rq w q = find-any (in_scope rq.scope) (t.records w) ∙ ap is_some q

  module _ (rq : Request) (a : Answer B) (w w' : W) (work : Exec W (Completion B)) where
    IsAnswered-old :
        (e : IdempotencyRecord B)
        → get_by_scope rq.scope (t.records w) ≡ some e
        → once t rq work w ≡ (ok a, w')
        → IsAnswered rq a w'
    unfolding once begin complete
    IsAnswered-old e q h = record {
      row = e;
      found = ground (arith, q, t.with-records w, h);
      hash = ground (arith, q, h);
      status = ground (arith, q, h);
      body = ground (arith, q, h);
    }

    refused :
        (e : AppError)
        → get_by_scope rq.scope (t.records w) ≡ none
        → (work (opened rq w)).0 ≡ raised e
        → once t rq work w ≡ (ok a, w')
        → ⊥
    unfolding once begin complete
    refused e q d h = ground (arith, q, d, h, free rq w q)

    IsAnswered-new :
        (c : Completion B)
        → get_by_scope rq.scope (t.records w) ≡ none
        → (work (opened rq w)).0 ≡ ok c
        → Frames work
        → once t rq work w ≡ (ok a, w')
        → IsAnswered rq a w'
    unfolding once begin complete
    IsAnswered-new c q d fr h = record {
      row =
          close c.response_status c.response_body c.resource_type c.resource_id
            (new_record rq.scope rq.request_hash rq.record_id rq.now);
      found = ground (
        arith,
        q,
        d,
        h,
        free rq w q,
        fr (opened rq w),
        t.records-with (new_record rq.scope rq.request_hash rq.record_id rq.now ∷ t.records w) w,
        new-in_scope B rq.scope rq.request_hash rq.record_id rq.now,
        ==_refl rq.record_id,
        t.records-with (t.records w') (work (opened rq w)).1,
        t.records-with
            (update_where (is_open rq.record_id)
              (close c.response_status c.response_body c.resource_type c.resource_id)
              (t.records (work (opened rq w)).1))
            (work (opened rq w)).1,
      );
      hash = eq_refl rq.request_hash;
      status = ground (
        arith,
        q,
        d,
        h,
        free rq w q,
        fr (opened rq w),
        t.records-with (new_record rq.scope rq.request_hash rq.record_id rq.now ∷ t.records w) w,
      );
      body = ground (
        arith,
        q,
        d,
        h,
        free rq w q,
        fr (opened rq w),
        t.records-with (new_record rq.scope rq.request_hash rq.record_id rq.now ∷ t.records w) w,
      );
    }

  pub IsAnswered-once :
      (rq : Request) (a : Answer B) (w w' : W) (work : Exec W (Completion B))
      → Frames work
      → once t rq work w ≡ (ok a, w')
      → IsAnswered rq a w'
  IsAnswered-once rq a w w' work fr h = elim (Option-cases (get_by_scope rq.scope (t.records w))) [
    | inr (e, q) ↦ IsAnswered-old rq a w w' work e q h
    | inl q ↦ elim (Result-cases (work (opened rq w)).0) [
      | inl (c, d) ↦ IsAnswered-new rq a w w' work c q d fr h
      | inr (e, d) ↦ absurd (refused rq a w w' work e q d h)
    ]
  ]

  -- A request that was answered is answered the same way when it comes again with the same scope
  -- and body hash, whatever its new work, id and time: nothing is done a second time.
  pub once_replay :
      (rq rq' : Request) (a : Answer B) (w w' : W) (work work' : Exec W (Completion B))
      → Frames work
      → rq'.scope ≡ rq.scope
      → rq'.request_hash ≡ rq.request_hash
      → once t rq work w ≡ (ok a, w')
      → once t rq' work' w' ≡ (ok a, w')
  once_replay rq rq' a w w' work work' fr sc eh h =
      let old = IsAnswered-once rq a w w' work fr h in
      once-IsAnswered rq' a w' work' (record {
        row = old.row;
        found = rw sc old.found;
        hash = rw eh old.hash;
        status = old.status;
        body = old.body;
      })

  committed :
      (m : Exec W (Answer B)) (a : Answer B) (w w' : W)
      → atomically m w ≡ (ok a, w')
      → m w ≡ (ok a, w')
  committed m a w w' h = ground arith

  -- The same for the endpoint in its transaction.
  pub endpoint_replay :
      (rq rq' : Request) (a : Answer B) (w w' : W) (work work' : Exec W (Completion B))
      → Frames work
      → rq'.scope ≡ rq.scope
      → rq'.request_hash ≡ rq.request_hash
      → atomically (once t rq work) w ≡ (ok a, w')
      → atomically (once t rq' work') w' ≡ (ok a, w')
  endpoint_replay rq rq' a w w' work work' fr sc eh h =
      rw (once_replay rq rq' a w w' work work' fr sc eh (committed (once t rq work) a w w' h))
