-- ===== src/Agents/Outbox/Steps.antt =====
-- What a request does to the table of commands: nothing, or one change of it.
use campus_pilots.Base.{
  ℕ, ◌+◌, String, false, not, ◌&&◌, Option, some, List, [], ◌∷◌, ◌≡◌, refl, ◌⊎◌, inl, inr,
  Bool-cases, Option-cases, any, find, ◌==◌, update_where, count_where,
}
use campus_pilots.Agents.Outbox.{
  Command, CommandAction, is_claimable, claimed, is_held, completed, retried, retry_delay, has_id,
  new_command, is_failed, Outcome, returned, raised_code, add, claim_batch, complete, fail_or_retry,
  process_one,
}

pub data Request : Type 0 where
  adding : ℕ → ℕ → ℕ → CommandAction → Option ℕ → Request
  claiming : String → ℕ → ℕ → Request
  processing_one : String → ℕ → Outcome → Request

-- The table after a request at a time.
unfoldable pub serve : ℕ → Request → List Command → List Command
unfolding add claim_batch process_one
serve now (adding max_attempts id run_id action approval_id) rows =
    (add max_attempts now id run_id action approval_id rows).1
serve now (claiming worker_id stale_after limit) rows =
    (claim_batch worker_id now stale_after limit rows).1
serve now (processing_one worker_id command_id outcome) rows =
    (process_one worker_id now command_id outcome rows).1

-- The table after some requests, the first of the list first.
abbrev pub serve_all : List (ℕ × Request) → List Command → List Command
serve_all [] rows = rows
serve_all ((now, r) ∷ rs) rows = serve_all rs (serve now r rows)

pub add-cases :
    (now m id run : ℕ) (a : CommandAction) (approval : Option ℕ) (rows : List Command)
    → (serve now (adding m id run a approval) rows ≡ rows)
      ⊎ ((any (has_id id) rows ≡ false)
          × (serve now (adding m id run a approval) rows
              ≡ new_command m now id run a approval ∷ rows))
unfolding serve add
add-cases now m id run a approval rows = elim (Bool-cases (any (has_id id) rows)) [
  | inl taken ↦ inl (rw (serve, taken) refl)
  | inr fresh ↦ inr (fresh, rw (serve, fresh) refl)
]

pub claim-lem :
    (worker : String) (now stale limit : ℕ) (rows : List Command)
    → (ids : List ℕ) × (serve now (claiming worker stale limit) rows
        ≡ update_where
            (λ c. is_claimable now stale c && any (λ id. has_id id c) ids)
            (claimed worker now)
            rows)
unfolding serve claim_batch
claim-lem worker now stale limit rows = (_, refl)

pub process-cases :
    (worker : String) (now id : ℕ) (o : Outcome) (rows : List Command)
    → (serve now (processing_one worker id o) rows ≡ rows)
      ⊎ ((held : ℕ) × ((serve now (processing_one worker id o) rows
              ≡ update_where (is_held held worker) (completed now) rows)
            ⊎ ((retry_at : ℕ) × (code : String) × (serve now (processing_one worker id o) rows
                  ≡ update_where (is_held held worker) (retried now retry_at code) rows))))
unfolding serve process_one complete fail_or_retry
process-cases worker now id returned rows = elim (Option-cases (find (is_held id worker) rows)) [
  | inl missing ↦ inl (rw (serve, missing) refl)
  | inr (c, found) ↦ elim (Bool-cases (count_where (is_held c.id worker) rows == 1)) [
    | inl one ↦ inr (c.id, inl (rw (serve, found, one) refl))
    | inr other ↦ inl (rw (serve, found, other) refl)
  ]
]
process-cases worker now id (raised_code code marked) rows =
    elim (Option-cases (find (is_held id worker) rows)) [
      | inl missing ↦ inl (rw (serve, missing) refl)
      | inr (c, found) ↦
          let at = now + retry_delay c.attempt_count in
          elim (Option-cases (find (is_held c.id worker) rows)) [
            | inl none_held ↦ elim (Bool-cases marked) [
              | inl one ↦ inr (c.id, inr (at, code, rw (serve, found, none_held, one) refl))
              | inr other ↦ inr (c.id, inr (at, code, rw (serve, found, none_held, other) refl))
            ]
            | inr (d, held) ↦
                elim (Bool-cases (not marked && is_failed (some (retried now at code d).status))) [
                  | inl bad ↦ inl (rw (serve, found, held, bad) refl)
                  | inr good ↦ inr (c.id, inr (at, code, rw (serve, found, held, good) refl))
                ]
          ]
    ]
