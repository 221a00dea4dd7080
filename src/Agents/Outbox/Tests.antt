-- ===== src/Agents/Outbox/Tests.antt =====
-- Commands that are tried, retried and over.
use campus_pilots.Base.{ℕ, ◌≤◌, true, none, some, List, [], ◌∷◌, ◌≡◌, refl, All, arith, find}
use campus_pilots.Base.Sort.{sort}
use campus_pilots.Agents.Outbox.{
  Command, start, pending, failed, has_id, returned, raised_code, new_command, completed, claimed,
  add, claim_batch, process_one, complete, fail_or_retry,
}
use campus_pilots.Agents.Outbox.Steps.{Request, adding, claiming, processing_one, serve, serve_all}
use campus_pilots.Agents.Outbox.Settled.{serve_all-kept, serve_all-IsBounded}
use campus_pilots.Agents.Outbox.Attempts.{polls, polls-failed}

abbrev waiting : Command
waiting = new_command 2 100 7 3 start none

abbrev over : Command
over = completed 150 (claimed "w1" 120 waiting)

-- Two workers want the same command: the first one has it.
abbrev rivals : List (ℕ × Request)
rivals =
    (100, adding 2 8 4 start none)
    ∷ (110, claiming "w1" 60 5)
    ∷ (111, claiming "w2" 60 5)
    ∷ (112, processing_one "w2" 8 returned)
    ∷ (113, processing_one "w1" 8 (raised_code "MODEL_UNAVAILABLE" true))
    ∷ []

rivals_run :
    (c : Command) × (serve_all rivals [] ≡ c ∷ [])
    × (c.status ≡ pending)
    × (c.attempt_count ≡ 1)
    × (c.available_at ≡ 2000113)
unfolding serve add claim_batch process_one complete fail_or_retry sort
rivals_run = (_, refl, refl, refl, refl)

serve_all-kept_example : find (has_id 7) (serve_all rivals (over ∷ [])) ≡ some over
serve_all-kept_example = serve_all-kept 7 over refl rivals (over ∷ []) refl

serve_all-IsBounded_example :
    All (λ (c : Command). c.attempt_count ≤ c.max_attempts) (serve_all rivals (waiting ∷ []))
serve_all-IsBounded_example = serve_all-IsBounded rivals (waiting ∷ []) (omega arith, tt)

polls-failed_example :
    (c' : Command) × (polls "w1" 60 4 7
        ((5, "MODEL_UNAVAILABLE") ∷ (0, "TIMEOUT") ∷ [])
        (waiting ∷ [])
      ≡ c' ∷ [])
    × (c'.status ≡ failed)
    × (c'.attempt_count ≡ 2)
    × (c'.claimed_by ≡ none)
polls-failed_example =
    polls-failed "w1" 60 4 ((0, "TIMEOUT") ∷ []) 5 "MODEL_UNAVAILABLE" waiting refl refl
