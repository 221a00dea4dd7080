-- ===== src/Platform/Idempotency/Laws.antt =====
-- Two sessions that race for one scope.
use campus_pilots.Base.{
  ℕ, String, Bool, true, false, Option, none, some, List, [], ◌∷◌, any, find, update_where,
  count_where, ◌≡◌, arith, refl, eq_refl, ==_refl, str_eq, is_some, Bool-cases, inl, inr,
}
use campus_pilots.Exec.{ok, raised}
use campus_pilots.Platform.Idempotency.{
  IdempotencyRecord, Scope, in_scope, begin, complete, new_record, is_open, close, get_by_scope,
}
use campus_pilots.Errors.{idempotency_conflict}

pub new-in_scope {ℓ} :
    (B : Type ℓ) (sc : Scope) (h : String) (i t : ℕ)
    → in_scope sc (new_record {B = B} sc h i t) ≡ true
new-in_scope B sc h i t =
    ground (arith, eq_refl sc.endpoint, eq_refl sc.idempotency_key, ==_refl sc.user_id)

module _ {ℓ} {B : Type ℓ} where
  pub find-any :
      (p : IdempotencyRecord B → Bool) (rows : List (IdempotencyRecord B))
      → any p rows ≡ is_some (find p rows)
  find-any p [] = refl
  find-any p (r ∷ rows) = ground (arith, find-any p rows)

  update-none_open :
      (i st : ℕ) (b : B) (x y : Option String) (rows : List (IdempotencyRecord B))
      → count_where (is_open i) rows ≡ 0
      → update_where (is_open i) (close st b x y) rows ≡ rows
  update-none_open i st b x y [] h = refl
  update-none_open i st b x y (r ∷ rows) h = elim (Bool-cases (is_open i r)) [
    | inl hit ↦ absurd (ground (arith, h, hit))
    | inr miss ↦ rw (miss, update-none_open i st b x y rows (ground (arith, h, miss))) refl
  ]

  -- What the winner's transaction commits: it begins, works and completes.
  abbrev pub answering :
      Scope
      → String
      → ℕ
      → ℕ
      → ℕ
      → B
      → Option String
      → Option String
      → List (IdempotencyRecord B)
      → List (IdempotencyRecord B)
  answering sc h i t st b x y rows = (complete i st b x y (begin (λ same. same) sc h i t rows).1).1

  -- Two sessions begin the same free scope, and one commits its whole transaction, whose record has a
  -- fresh id, between the other's read and insert: one record is added, the winner's with its answer. The loser
  -- is given that answer to replay if the bodies hash the same, and raises the conflict if they do not.
  pub begin_race :
      (sc : Scope) (h : String) (i t st : ℕ) (b : B) (x y : Option String) (h' : String) (i' t' : ℕ)
      (rows : List (IdempotencyRecord B))
      → get_by_scope sc rows ≡ none
      → count_where (is_open i) rows ≡ 0
      → ((begin (answering sc h i t st b x y) sc h' i' t' rows).1
          ≡ close st b x y (new_record sc h i t) ∷ rows)
        × (str_eq h h' ≡ true
            → (begin (answering sc h i t st b x y) sc h' i' t' rows).0
              ≡ ok (record {
                record_id = i;
                replay = some (record {
                  response_status = st;
                  response_body = some b;
                  resource_type = x;
                  resource_id = y;
                });
                pending = false;
              }))
        × (str_eq h h' ≡ false
            → (begin (answering sc h i t st b x y) sc h' i' t' rows).0
              ≡ raised idempotency_conflict)
  unfolding begin complete
  begin_race sc h i t st b x y h' i' t' rows free fresh =
      let closed = find-any (in_scope sc) rows in
      let own = new-in_scope B sc h i t in
      let kept = update-none_open i st b x y rows fresh in
      let same = ==_refl i in
      (
        ground (arith, free, closed, own, kept, same),
        λ e. ground (arith, free, closed, own, kept, same, e),
        λ e. ground (arith, free, closed, own, kept, same, e),
      )
