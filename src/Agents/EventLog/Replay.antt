-- ===== src/Agents/EventLog/Replay.antt =====
-- The table of events and the sink in memory hold the same events, but for what is redacted.
use campus_pilots.Base.{
  ℕ, ◌+◌, ◌&&◌, List, [], ◌∷◌, ◌++◌, ◌≡◌, refl, sym, ap, ◌∙◌, inl, inr, arith, subst, subst⁻¹,
  Bool-cases, ltb, ◌==◌, ==→eq, filter, length, map, some,
}
use campus_pilots.Base.Sort.{sort}
use campus_pilots.Platform.Redaction.{Strings, redact}
use campus_pilots.Agents.EventLog.{
  RuntimeEvent, Publication, event_of, is_of, max_sequence, append, take, later, replay, Sink,
  publish, append_all, publish_all, drop, hidden, or_empty,
}
use campus_pilots.Agents.EventLog.Order.{
  From, From-snoc, From-drop, filter-snoc, filter-filter, max_sequence-length, filter-drop,
  sort-From,
}

-- The sink has the rows of each run, and they are numbered from 1.
abbrev pub Refines : List RuntimeEvent → Sink → Type 0
Refines rows sink = (run_id : ℕ) → (filter (is_of run_id) rows ≡ sink run_id) × From 0 (sink run_id)

append-Refines :
    (s : Strings) (p : Publication) (rows : List RuntimeEvent) (sink : Sink)
    → Refines rows sink
    → Refines (append s p rows).1 (publish (hidden s p) sink).1
unfolding append publish
append-Refines s p rows sink h run_id =
    let (same, numbered) = h p.run_id in
    let size : max_sequence p.run_id rows ≡ length (sink p.run_id) =
      max_sequence-length p.run_id rows (subst⁻¹ (From 0) same numbered) ∙ ap length same in
    elim (Bool-cases (p.run_id == run_id)) [
      | inl e ↦
          let same_id : p.run_id ≡ run_id = ==→eq p.run_id run_id e in
          let item = event_of (hidden s p) (length (sink p.run_id) + 1) in
          let lengths : length (sink p.run_id) ≡ length (sink run_id) =
            ap (λ (i : ℕ). length (sink i)) same_id in
          rw (size, e)
            (
              rw (filter-snoc (is_of run_id) rows item, e, (h run_id).0) refl,
              From-snoc 0 (sink run_id) item (h run_id).1 (omega (arith, lengths)),
            )
      | inr e ↦
          rw
            (
              filter-snoc (is_of run_id) rows
                  (event_of (hidden s p) (max_sequence p.run_id rows + 1)),
              e,
            )
            (h run_id)
    ]

append_all-Refines :
    (s : Strings) (ps : List Publication) (rows : List RuntimeEvent) (sink : Sink)
    → Refines rows sink
    → Refines (append_all s ps rows) (publish_all (map (hidden s) ps) sink)
append_all-Refines s [] rows sink h = h
append_all-Refines s (p ∷ ps) rows sink h =
    append_all-Refines s ps (append s p rows).1 (publish (hidden s p) sink).1
      (append-Refines s p rows sink h)

replay-drop :
    (run_id after_sequence limit : ℕ) (rows : List RuntimeEvent) (sink : Sink)
    → Refines rows sink
    → replay run_id after_sequence limit rows ≡ take limit (drop after_sequence (sink run_id))
unfolding replay
replay-drop run_id after_sequence limit rows sink h =
    let (same, numbered) = h run_id in
    let wanted = λ (e : RuntimeEvent). ltb after_sequence e.sequence in
    let zeros : after_sequence + 0 ≡ after_sequence = omega arith in
    let dropped : filter wanted (sink run_id) ≡ drop after_sequence (sink run_id) =
      subst
        (λ m.
          filter (λ (e : RuntimeEvent). ltb m e.sequence) (sink run_id)
          ≡ drop after_sequence (sink run_id))
        zeros (filter-drop after_sequence 0 (sink run_id) numbered) in
    let chosen : filter (λ (e : RuntimeEvent). is_of run_id e && wanted e) rows
        ≡ drop after_sequence (sink run_id) =
      filter-filter (is_of run_id) wanted rows ∙ (ap (filter wanted) same ∙ dropped) in
    ap (take limit) (
      ap (sort later) chosen
      ∙ sort-From (after_sequence + 0) (drop after_sequence (sink run_id))
          (From-drop after_sequence 0 (sink run_id) numbered))

-- The event as the table has it.
abbrev pub redacted : Strings → RuntimeEvent → RuntimeEvent
redacted s e = record e { content = or_empty (redact s (some e.content)) }

map-snoc {ℓ} :
    {A : Type ℓ} (f : A → A) (xs : List A) (y : A) → map f (xs ++ (y ∷ [])) ≡ map f xs ++ (f y ∷ [])
map-snoc f [] y = refl
map-snoc f (x ∷ xs) y = ap (◌∷◌ (f x)) (map-snoc f xs y)

length-map {ℓ} : {A : Type ℓ} (f : A → A) (xs : List A) → length (map f xs) ≡ length xs
length-map f [] = refl
length-map f (x ∷ xs) = omega (arith, length-map f xs)

publish-map :
    (s : Strings) (p : Publication) (k sink : Sink)
    → ((i : ℕ) → k i ≡ map (redacted s) (sink i))
    → (i : ℕ) → (publish (hidden s p) k).1 i ≡ map (redacted s) ((publish p sink).1 i)
unfolding publish
publish-map s p k sink h i = elim (Bool-cases (p.run_id == i)) [
  | inl e ↦
      let sizes : length (k p.run_id) ≡ length (sink p.run_id) =
        ap length (h p.run_id) ∙ length-map (redacted s) (sink p.run_id) in
      rw (e, h i, sizes)
        (sym (map-snoc (redacted s) (sink i) (event_of p (length (sink p.run_id) + 1))))
  | inr e ↦ rw e (h i)
]

publish_all-map :
    (s : Strings) (ps : List Publication) (k sink : Sink)
    → ((i : ℕ) → k i ≡ map (redacted s) (sink i))
    → (i : ℕ) → publish_all (map (hidden s) ps) k i ≡ map (redacted s) (publish_all ps sink i)
publish_all-map s [] k sink h i = h i
publish_all-map s (p ∷ ps) k sink h i =
    publish_all-map s ps (publish (hidden s p) k).1 (publish p sink).1 (publish-map s p k sink h) i

-- The table refines the sink in memory: after any publications, a replay of a run after a number
-- gives the events of the sink, their data redacted, but for so many at its start, at most `limit`
-- of them; the events of the run are numbered from 1, and the greatest number in the table is how many there are in the sink.
pub replay-publish_all :
    (s : Strings) (ps : List Publication) (run_id after_sequence limit : ℕ)
    → let shown = map (redacted s) (publish_all ps (λ i. []) run_id) in
      (replay run_id after_sequence limit (append_all s ps [])
        ≡ take limit (drop after_sequence shown))
      × From 0 shown
      × (max_sequence run_id (append_all s ps []) ≡ length (publish_all ps (λ i. []) run_id))
replay-publish_all s ps run_id after_sequence limit =
    let k = publish_all (map (hidden s) ps) (λ i. []) in
    let refined = append_all-Refines s ps [] (λ i. []) (λ i. (refl, tt)) in
    let (same, numbered) = refined run_id in
    let shows = publish_all-map s ps (λ i. []) (λ i. []) (λ i. refl) run_id in
    (
      replay-drop run_id after_sequence limit (append_all s ps []) k refined
          ∙ ap (λ es. take limit (drop after_sequence es)) shows,
      subst (From 0) shows numbered,
      max_sequence-length run_id (append_all s ps []) (subst⁻¹ (From 0) same numbered)
          ∙ (ap length same
              ∙ (ap length shows ∙ length-map (redacted s) (publish_all ps (λ i. []) run_id))),
    )
