-- ===== src/Agents/Outbox/Settled.antt =====
-- What no request changes, and what every request keeps.
use campus_pilots.Base.{
  ℕ, ◌≤◌, Bool, true, false, some, List, [], ◌∷◌, ◌≡◌, refl, ap, ◌∙◌, inl, inr, arith, any-find,
  find, find-hit, find-update_where_kept, update_where, All, All-update_where,
}
use campus_pilots.Agents.Outbox.{
  Command, CommandStatus, succeeded, failed, has_id, claimed, completed, new_command, retried,
  is_pending, is_processing,
}
use campus_pilots.Agents.Outbox.Steps.{
  Request, adding, claiming, processing_one, serve, serve_all, add-cases, claim-lem, process-cases,
}

abbrev pub is_over : CommandStatus → Bool
is_over succeeded = true
is_over failed = true
is_over _ = false

over-not_open :
    (s : CommandStatus) → is_over s ≡ true → (is_pending s ≡ false) × (is_processing s ≡ false)
over-not_open CommandStatus.pending h = cc
over-not_open CommandStatus.processing h = cc
over-not_open succeeded h = (refl, refl)
over-not_open failed h = (refl, refl)

module _ (id : ℕ) (c : Command) (over : is_over c.status ≡ true) where
  untouched :
      (q : Command → Bool) (f : Command → Command) (rows new : List Command)
      → ((b : Command) → has_id id (f b) ≡ has_id id b)
      → find (has_id id) rows ≡ some c
      → q c ≡ false
      → new ≡ update_where q f rows
      → find (has_id id) new ≡ some c
  untouched q f rows new same found miss e =
      ap (find (has_id id)) e ∙ find-update_where_kept (has_id id) q f same rows found miss

  serve-kept :
      (now : ℕ) (r : Request) (rows : List Command)
      → find (has_id id) rows ≡ some c
      → find (has_id id) (serve now r rows) ≡ some c
  serve-kept now (adding m new run a approval) rows found =
      elim (add-cases now m new run a approval rows) [
        | inl same ↦ rw same found
        | inr (fresh, added) ↦
            let other : has_id new c ≡ false =
              any-find (has_id new) rows c fresh (has_id id) found in
            let hit : has_id id c ≡ true = find-hit (has_id id) rows found in
            let miss : has_id id (new_command m now new run a approval) ≡ false =
              ground (arith, other, hit) in
            ap (find (has_id id)) added ∙ rw miss found
      ]
  serve-kept now (claiming worker stale limit) rows found =
      let (p, q) = over-not_open c.status over in
      let (ids, e) = claim-lem worker now stale limit rows in
      untouched _ (claimed worker now) rows _ (λ b. refl) found (rw (p, q) refl) e
  serve-kept now (processing_one worker held_id o) rows found =
      let (p, q) = over-not_open c.status over in
      elim (process-cases worker now held_id o rows) [
        | inl same ↦ rw same found
        | inr (held, inl e) ↦ untouched _ _ rows _ (λ b. refl) found (ground (arith, q)) e
        | inr (held, inr (at, code, e)) ↦
            untouched _ _ rows _ (λ b. refl) found (ground (arith, q)) e
      ]

  -- Whatever workers and dispatchers do, in any order and number, a command that succeeded or failed
  -- for good stays as it is.
  pub serve_all-kept :
      (rs : List (ℕ × Request)) (rows : List Command)
      → find (has_id id) rows ≡ some c
      → find (has_id id) (serve_all rs rows) ≡ some c
  serve_all-kept [] rows found = found
  serve_all-kept ((now, r) ∷ rs) rows found =
      serve_all-kept rs (serve now r rows) (serve-kept now r rows found)

abbrev IsWithin : Command → Type 0
IsWithin c = c.attempt_count ≤ c.max_attempts

-- The counter of no command is above its limit.
abbrev pub IsBounded : List Command → Type 0
IsBounded = All IsWithin

serve-IsBounded :
    (now : ℕ) (r : Request) (rows : List Command) → IsBounded rows → IsBounded (serve now r rows)
serve-IsBounded now (adding m new run a approval) rows h =
    elim (add-cases now m new run a approval rows) [
      | inl same ↦ rw same h
      | inr (fresh, added) ↦ rw added (omega arith, h)
    ]
serve-IsBounded now (claiming worker stale limit) rows h =
    let (ids, e) = claim-lem worker now stale limit rows in
    rw e (
      All-update_where IsWithin IsWithin _ (claimed worker now) (λ c hit k. ground (arith, k))
        (λ c miss k. k) rows h)
serve-IsBounded now (processing_one worker held_id o) rows h =
    elim (process-cases worker now held_id o rows) [
      | inl same ↦ rw same h
      | inr (held, inl e) ↦ rw e (
          All-update_where IsWithin IsWithin _ (completed now) (λ c hit k. k) (λ c miss k. k) rows
            h)
      | inr (held, inr (at, code, e)) ↦ rw e (
          All-update_where IsWithin IsWithin _ (retried now at code) (λ c hit k. k) (λ c miss k. k)
            rows h)
    ]

-- Whatever workers and dispatchers do, in any order and number, the column `attempt_count` of no
-- command exceeds its `max_attempts`.
pub serve_all-IsBounded :
    (rs : List (ℕ × Request)) (rows : List Command) → IsBounded rows → IsBounded (serve_all rs rows)
serve_all-IsBounded [] rows h = h
serve_all-IsBounded ((now, r) ∷ rs) rows h =
    serve_all-IsBounded rs (serve now r rows) (serve-IsBounded now r rows h)
