-- ===== src/Agents/Checkpoint/RoundTrip.antt =====
-- A saved state is loaded as it was, and a state is saved once from each version.
use campus_pilots.Base.{
  ℕ, ◌+◌, ◌≤◌, ◌<◌, String, str_eq, true, false, Option, none, some, List, [], ◌∷◌, ◌≡◌, refl, inl,
  inr, arith, Bool-cases, if◌then◌else◌, leb, ◌==◌, ==_refl, ==→eq, eq_refl, any, find,
  update_where, count_where,
}
use campus_pilots.Errors.{invalid_runtime_checkpoint, integrity_error}
use campus_pilots.Exec.{ok, raised}
use campus_pilots.Agents.Checkpoint.{
  AgentRuntimeCheckpoint, of_run, get, at_version, update_if_version, add, encode, decode, load_row,
  load, saved_row, next_version, save,
}
use campus_pilots.Agents.Checkpoint.Payload.{
  RuntimeCheckpoint, Codec, payload_of, state_of, sorted, uuid_value, request_value, code_value,
  as_uuid, as_request, as_code,
}
use campus_pilots.Base.Sort.{sort}

count-at_version :
    (run_id version : ℕ) (rows : List AgentRuntimeCheckpoint)
    → count_where (at_version run_id version) rows ≤ count_where (of_run run_id) rows
count-at_version run_id version [] = omega arith
count-at_version run_id version (r ∷ rows) = ground (arith, count-at_version run_id version rows)

-- An update of the one row of a run is found.
found-updated :
    (run_id version : ℕ) (row : AgentRuntimeCheckpoint) (rows : List AgentRuntimeCheckpoint)
    → of_run run_id row ≡ true
    → count_where (of_run run_id) rows ≤ 1
    → count_where (at_version run_id version) rows ≡ 1
    → find (of_run run_id) (update_where (at_version run_id version) (λ old. row) rows) ≡ some row
found-updated run_id version row [] same u c = ground arith
found-updated run_id version row (r ∷ rows) same u c =
    elim (Bool-cases (at_version run_id version r)) [
      | inl hit ↦ rw (hit, same) refl
      | inr miss ↦ elim (Bool-cases (of_run run_id r)) [
        | inl here ↦ absurd (ground (arith, miss, here, u, c, count-at_version run_id version rows))
        | inr there ↦
            rw (miss, there)
              (found-updated run_id version row rows same (ground (arith, there, u))
                (ground (arith, miss, c)))
      ]
    ]

-- After an update that leaves the version, no row has it.
none-updated :
    (run_id version : ℕ) (row : AgentRuntimeCheckpoint) (rows : List AgentRuntimeCheckpoint)
    → at_version run_id version row ≡ false
    → count_where
        (at_version run_id version)
        (update_where (at_version run_id version) (λ old. row) rows)
      ≡ 0
none-updated run_id version row [] h = refl
none-updated run_id version row (r ∷ rows) h =
    ground (arith, h, none-updated run_id version row rows h)

-- What the codec relies on: decryption undoes encryption, `UUID` reads what `str` gives, which is not
-- empty, and each model validates what it has dumped, which is not empty for a tool request.
pub record Reads {U C P R : Type 0} (x : Codec U C P R) : Type 0 where
  pub decrypts : (random : ℕ) (raw : String) → x.decrypt (x.encrypt random raw) ≡ some raw
  pub uuids : (n : ℕ) → x.parse_uuid (x.uuid_text n) ≡ some n
  pub uuid_full : (n : ℕ) → str_eq (x.uuid_text n) "" ≡ false
  pub users : (u : U) → x.validate_user (x.dump_user u) ≡ some u
  pub plans : (p : P) → x.validate_plan (x.dump_plan p) ≡ some p
  pub requests : (r : R) → x.validate_request (x.dump_request r) ≡ some r
  pub request_full : (r : R) → x.truthy (x.dump_request r) ≡ true

module _ {U C P R : Type 0} (x : Codec U C P R) (reads : Reads x) where
  as_uuid-value : (o : Option ℕ) → as_uuid x (uuid_value x o) ≡ some o
  unfolding as_uuid
  as_uuid-value none = refl
  as_uuid-value (some n) = rw (reads.uuid_full n, reads.uuids n) refl

  as_request-value : (o : Option R) → as_request x (request_value x o) ≡ some o
  unfolding as_request
  as_request-value none = refl
  as_request-value (some r) = rw (reads.request_full r, reads.requests r) refl

  as_code-value : (o : Option String) → as_code x (code_value x o) ≡ some o
  unfolding as_code
  as_code-value none = refl
  as_code-value (some code) = refl

  -- The conversions of `decode` undo those of `encode`, the order of the keys apart.
  state_of-payload_of :
      (s : RuntimeCheckpoint U C P R)
      → state_of x (sorted (payload_of x s)) ≡ some (record s { checkpoint_version = 0 })
  unfolding state_of payload_of sort
  state_of-payload_of s =
      rw
        (
          reads.users s.user,
          reads.plans s.plan,
          as_uuid-value s.pending_step_id,
          as_uuid-value s.pending_tool_call_id,
          as_request-value s.pending_request,
          as_code-value s.pending_agent_code,
        )
        refl

module _ {U C P R : Type 0} (x : Codec U C P R) (reads : Reads x) (s : RuntimeCheckpoint U C P R)
    (parses : x.loads (x.dumps (payload_of x s)) ≡ some (sorted (payload_of x s))) where
  decode-encode :
      (random : ℕ)
      → decode x (encode x random s).0 (encode x random s).1
        ≡ ok (record s { checkpoint_version = 0 })
  unfolding decode encode
  decode-encode random =
      rw
        (
          reads.decrypts random (x.dumps (payload_of x s)),
          eq_refl (x.sha256 (x.dumps (payload_of x s))),
          parses,
          state_of-payload_of x reads s,
        )
        refl

  load_row-saved_row :
      (ttl random now later run_id : ℕ)
      → later < now + ttl
      → load_row x later (some (saved_row x ttl random now run_id s)) ≡ ok (some (next_version s))
  load_row-saved_row ttl random now later run_id h =
      let fresh : leb (now + ttl) later ≡ false = ground arith in
      rw (fresh, decode-encode random) refl

  -- Where the calls of the codec are as `Reads` says and the JSON text of the state's dictionary is
  -- parsed to that dictionary with its keys sorted: a save that returns is followed by a load of the
  -- same state with the next version, until the expiry. The run's identifier is the primary key of the rows.
  pub load-save :
      (ttl random now later run_id : ℕ) (rows : List AgentRuntimeCheckpoint)
      → count_where (of_run run_id) rows ≤ 1
      → later < now + ttl
      → (save x ttl random now run_id s rows).0 ≡ ok (next_version s)
      → (load x later run_id (save x ttl random now run_id s rows).1).0 ≡ ok (some (next_version s))
  unfolding load save get add update_if_version
  load-save ttl random now later run_id rows u h e =
      let row = saved_row x ttl random now run_id s in
      elim (Bool-cases (s.checkpoint_version == 0)) [
        | inl first ↦ elim (Bool-cases (any (of_run run_id) rows)) [
          | inl taken ↦ (let k = rw (first, taken) at e in cc)
          | inr free ↦
              rw (first, free)
                (rw (==_refl run_id) (load_row-saved_row ttl random now later run_id h))
        ]
        | inr again ↦
            elim (Bool-cases (count_where (at_version run_id s.checkpoint_version) rows == 1)) [
              | inl one ↦
                  rw (again, one)
                    (rw
                      (found-updated run_id s.checkpoint_version row rows (==_refl run_id) u
                        (==→eq _ 1 one))
                      (load_row-saved_row ttl random now later run_id h))
              | inr stale ↦ (let k = rw (again, stale) at e in cc)
            ]
      ]

-- Optimistic locking: when a save from a version has returned, another save from the same version
-- raises, whatever state it brings.
pub save-stale :
    {U C P R : Type 0} (x : Codec U C P R) (ttl random random' now now' run_id : ℕ)
    (s s' : RuntimeCheckpoint U C P R) (rows : List AgentRuntimeCheckpoint)
    → s'.checkpoint_version ≡ s.checkpoint_version
    → (save x ttl random now run_id s rows).0 ≡ ok (next_version s)
    → ((save x ttl random' now' run_id s' (save x ttl random now run_id s rows).1).0
        ≡ raised
            (if s.checkpoint_version == 0 then integrity_error else invalid_runtime_checkpoint))
unfolding save add update_if_version
save-stale x ttl random random' now now' run_id s s' rows same e =
    let row = saved_row x ttl random now run_id s in
    elim (Bool-cases (s.checkpoint_version == 0)) [
      | inl first ↦ elim (Bool-cases (any (of_run run_id) rows)) [
        | inl taken ↦ (let k = rw (first, taken) at e in cc)
        | inr free ↦ rw (same, first, free) (rw (==_refl run_id) refl)
      ]
      | inr again ↦
          elim (Bool-cases (count_where (at_version run_id s.checkpoint_version) rows == 1)) [
            | inl one ↦
                let gone = none-updated run_id s.checkpoint_version row rows (ground arith) in
                rw (same, again, one) (rw gone refl)
            | inr stale ↦ (let k = rw (again, stale) at e in cc)
          ]
    ]
