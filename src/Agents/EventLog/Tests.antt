-- ===== src/Agents/EventLog/Tests.antt =====
-- Events of two runs, one with a secret.
use campus_pilots.Base.{List, [], ◌∷◌, ◌≡◌, refl, length, map, str_eq}
use campus_pilots.Base.Sort.{sort}
use campus_pilots.Platform.Redaction.{
  Entries, end, entry, scalar, text, Strings, redact_entries, is_sensitive_key,
}
use campus_pilots.Agents.EventLog.{
  Publication, append, append_all, publish_all, replay, take, drop, max_sequence,
}
use campus_pilots.Agents.EventLog.Order.{From}
use campus_pilots.Agents.EventLog.Replay.{redacted, replay-publish_all}

abbrev strings : Strings
strings = record { lower = λ s. s; without = λ part s. s; is_in = str_eq }

abbrev login : Entries
login = entry "user" (scalar (text "ada")) (entry "token" (scalar (text "abc")) end)

abbrev shown_login : Entries
shown_login = entry "user" (scalar (text "ada")) (entry "token" (scalar (text "***")) end)

abbrev events : List Publication
events =
    record { run_id = 1; event = "route"; occurred_at = 10; content = end }
    ∷ record { run_id = 2; event = "route"; occurred_at = 11; content = end }
    ∷ record { run_id = 1; event = "agent_step"; occurred_at = 12; content = login }
    ∷ record { run_id = 1; event = "done"; occurred_at = 13; content = end }
    ∷ []

resumed :
    replay 1 1 500 (append_all strings events [])
    ≡ record {
      run_id = 1;
      sequence = 2;
      event = "agent_step";
      occurred_at = 12;
      content = shown_login;
    }
      ∷ record { run_id = 1; sequence = 3; event = "done"; occurred_at = 13; content = end }
      ∷ []
unfolding replay append max_sequence sort redact_entries is_sensitive_key
resumed = refl

replay-publish_all_example :
    (replay 1 1 500 (append_all strings events [])
      ≡ take 500 (drop 1 (map (redacted strings) (publish_all events (λ i. []) 1))))
    × From 0 (map (redacted strings) (publish_all events (λ i. []) 1))
    × (max_sequence 1 (append_all strings events []) ≡ length (publish_all events (λ i. []) 1))
replay-publish_all_example = replay-publish_all strings events 1 1 500
