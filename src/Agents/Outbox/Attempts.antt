-- ===== src/Agents/Outbox/Attempts.antt =====
-- A command whose processing fails every time.
use campus_pilots.Base.{
  ℕ, suc, ◌+◌, ◌≤◌, String, true, none, List, [], ◌∷◌, ◌≡◌, refl, ap, ◌∙◌, arith, length, ==_refl,
  eq_refl,
}
use campus_pilots.Base.Sort.{sort}
use campus_pilots.Agents.Outbox.{
  Command, pending, failed, claimed, retried, retry_delay, is_claimable, is_held, raised_code,
  claim_batch, fail_or_retry, process_one,
}
use campus_pilots.Agents.Outbox.Steps.{claiming, processing_one, serve}

module _ (worker : String) (stale limit : ℕ) where
  -- One poll of a worker at a time: it claims what is due, processes one command, and that raises.
  unfoldable pub poll : ℕ → ℕ → String → List Command → List Command
  poll now id code rows =
      serve now (processing_one worker id (raised_code code true))
        (serve now (claiming worker stale (suc limit)) rows)

  -- The polls of a command that is alone in the table, each some time after it is free again.
  abbrev pub polls : ℕ → List (ℕ × String) → List Command → List Command
  polls id [] rows = rows
  polls id ((wait, code) ∷ later) [] = []
  polls id ((wait, code) ∷ later) (c ∷ cs) =
      polls id later (poll (c.available_at + wait) id code (c ∷ cs))

  -- The command after a failed attempt.
  abbrev tried : ℕ → String → Command → Command
  tried now code c =
      retried now (now + retry_delay (claimed worker now c).attempt_count) code
        (claimed worker now c)

  claim_one :
      (now : ℕ) (c : Command)
      → c.status ≡ pending
      → c.available_at ≤ now
      → suc c.attempt_count ≤ c.max_attempts
      → serve now (claiming worker stale (suc limit)) (c ∷ []) ≡ claimed worker now c ∷ []
  unfolding serve claim_batch sort
  claim_one now c waiting due more =
      let free : is_claimable now stale c ≡ true = rw waiting (ground (arith, due, more)) in
      rw (serve, free) (rw (==_refl c.id) refl)

  poll_lem :
      (now : ℕ) (code : String) (c : Command)
      → c.status ≡ pending
      → c.available_at ≤ now
      → suc c.attempt_count ≤ c.max_attempts
      → poll now c.id code (c ∷ []) ≡ tried now code c ∷ []
  unfolding poll serve process_one fail_or_retry
  poll_lem now code c waiting due more =
      let held : is_held c.id worker (claimed worker now c) ≡ true =
        rw (==_refl c.id, eq_refl worker) refl in
      rw (poll, claim_one now c waiting due more) (rw (serve, held) (rw held refl))

  -- A command that is alone in the table, waits, and has as many tries left as there are polls, at
  -- least one, each made when the command is free again, is tried that many times when its
  -- processing raises each time and its run can be marked as failed: it ends as failed for good,
  -- after `max_attempts` tries, in the hands of no worker.
  pub polls-failed :
      (later : List (ℕ × String)) (wait : ℕ) (code : String) (c : Command)
      → c.status ≡ pending
      → c.attempt_count + suc (length later) ≡ c.max_attempts
      → (c' : Command) × (polls c.id ((wait, code) ∷ later) (c ∷ []) ≡ c' ∷ [])
        × (c'.status ≡ failed)
        × (c'.attempt_count ≡ c.max_attempts)
        × (c'.claimed_by ≡ none)
  polls-failed [] wait code c waiting left =
      let now = c.available_at + wait in
      (
        tried now code c,
        poll_lem now code c waiting (omega arith) (omega (arith, left)),
        ground (arith, left),
        ground (arith, left),
        refl,
      )
  polls-failed ((wait', code') ∷ later) wait code c waiting left =
      let now = c.available_at + wait in
      let (c', run, status, tries, free) =
        polls-failed later wait' code' (tried now code c) (ground (arith, left))
          (ground (arith, left)) in
      (
        c',
        ap (polls c.id ((wait', code') ∷ later))
              (poll_lem now code c waiting (omega arith) (omega (arith, left)))
            ∙ run,
        status,
        tries,
        free,
      )
