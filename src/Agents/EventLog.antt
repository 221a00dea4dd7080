-- ===== src/Agents/EventLog.antt =====
-- The events of a run: `RuntimeEventRepository` (backend/app/modules/agent_platform/
-- runtime_persistence.py) and `InMemoryRuntimeEventSink` (orchestration/runtime.py). The rows of the
-- table stand in the order of their insertion, without their `id` and `request_id`.
pub mod Order
pub mod Replay
mod Tests
use campus_pilots.Base.{
  ℕ, zero, suc, ◌+◌, ◌-◌, max, String, Bool, ◌&&◌, Option, none, some, List, [], ◌∷◌, ◌++◌, ltb,
  ◌==◌, filter, length, if◌then◌else◌,
}
use campus_pilots.Base.Sort.{sort}
use campus_pilots.Exec.{Exec, ok}
use campus_pilots.Platform.Redaction.{Entries, end, Strings, redact}

-- `content` is the column, and the field, `data`.
pub record RuntimeEvent : Type 0 where
  pub run_id : ℕ
  pub sequence : ℕ
  pub event : String
  pub occurred_at : ℕ
  pub content : Entries

-- An event that is to be published.
pub record Publication : Type 0 where
  pub run_id : ℕ
  pub event : String
  pub occurred_at : ℕ
  pub content : Entries

abbrev pub event_of : Publication → ℕ → RuntimeEvent
event_of p sequence = record {
  run_id = p.run_id;
  sequence = sequence;
  event = p.event;
  occurred_at = p.occurred_at;
  content = p.content;
}

abbrev pub is_of : ℕ → RuntimeEvent → Bool
is_of run_id e = e.run_id == run_id

-- `coalesce(max(sequence), 0)` of a run's rows.
unfoldable pub max_sequence : ℕ → List RuntimeEvent → ℕ
max_sequence run_id [] = 0
max_sequence run_id (e ∷ es) =
    let rest = max_sequence run_id es in if is_of run_id e then max e.sequence rest else rest

-- `redact(data) or {}`
abbrev pub or_empty : Option Entries → Entries
or_empty none = end
or_empty (some es) = es

module _ (s : Strings) where
  -- What the table stores of a publication.
  abbrev pub hidden : Publication → Publication
  hidden p = record p { content = or_empty (redact s (some p.content)) }

  unfoldable pub append : Publication → Exec (List RuntimeEvent) RuntimeEvent
  append p rows =
      let item = event_of (hidden p) (max_sequence p.run_id rows + 1) in
      (ok item, rows ++ (item ∷ []))

  -- All publications, the first of the list first.
  abbrev pub append_all : List Publication → List RuntimeEvent → List RuntimeEvent
  append_all [] rows = rows
  append_all (p ∷ ps) rows = append_all ps (append p rows).1

-- `LIMIT`
abbrev pub take {ℓ} : {A : Type ℓ} → ℕ → List A → List A
take zero xs = []
take (suc n) [] = []
take (suc n) (x ∷ xs) = x ∷ take n xs

abbrev pub later : RuntimeEvent → RuntimeEvent → Bool
later a b = ltb b.sequence a.sequence

unfoldable pub replay : ℕ → ℕ → ℕ → List RuntimeEvent → List RuntimeEvent
replay run_id after_sequence limit rows =
    take limit (sort later (filter (λ e. is_of run_id e && ltb after_sequence e.sequence) rows))

-- `_events`, a list for each run.
abbrev pub Sink : Type 0
Sink = ℕ → List RuntimeEvent

unfoldable pub publish : Publication → Exec Sink RuntimeEvent
publish p sink =
    let item = event_of p (length (sink p.run_id) + 1) in
    (ok item, λ run_id. if p.run_id == run_id then sink run_id ++ (item ∷ []) else sink run_id)

abbrev pub publish_all : List Publication → Sink → Sink
publish_all [] sink = sink
publish_all (p ∷ ps) sink = publish_all ps (publish p sink).1

abbrev pub drop {ℓ} : {A : Type ℓ} → ℕ → List A → List A
drop zero xs = xs
drop (suc n) [] = []
drop (suc n) (x ∷ xs) = drop n xs
