-- ===== src/Agents/Checkpoint.antt =====
-- The recovery state of a run: `CheckpointCodec` and `DatabaseRuntimeCheckpointStore`
-- (backend/app/modules/agent_platform/checkpointing.py) over `RuntimeCheckpointRepository`
-- (runtime_persistence.py), with the codec's dictionaries in Payload.
pub mod Payload
pub mod RoundTrip
mod Tests
use campus_pilots.Base.{
  ℕ, ◌+◌, String, Bool, true, false, not, ◌&&◌, Option, none, some, List, [], ◌∷◌, leb, ◌==◌, any,
  find, filter, update_where, count_where, str_eq, if◌then◌else◌,
}
use campus_pilots.Errors.{invalid_runtime_checkpoint, integrity_error}
use campus_pilots.Agents.Checkpoint.Payload.{RuntimeCheckpoint, Codec, payload_of, state_of}
use campus_pilots.Exec.{
  Result, Exec, ok, raised, pure, gets, lift, raise_if, modify, ◌>>=◌, ◌>>◌, ◌|>◌,
}

pub record AgentRuntimeCheckpoint : Type 0 where
  pub run_id : ℕ
  pub state_version : ℕ
  pub encrypted_state : String
  pub state_sha256 : String
  pub expires_at : ℕ
  pub updated_at : ℕ

abbrev pub of_run : ℕ → AgentRuntimeCheckpoint → Bool
of_run run_id row = row.run_id == run_id

unfoldable pub get : ℕ → List AgentRuntimeCheckpoint → Option AgentRuntimeCheckpoint
get run_id rows = find (of_run run_id) rows

abbrev pub at_version : ℕ → ℕ → AgentRuntimeCheckpoint → Bool
at_version run_id version row = of_run run_id row && row.state_version == version

unfoldable pub update_if_version :
    ℕ
    → ℕ
    → (AgentRuntimeCheckpoint → AgentRuntimeCheckpoint)
    → Exec (List AgentRuntimeCheckpoint) Bool
update_if_version run_id version values rows = (
  ok (count_where (at_version run_id version) rows == 1),
  update_where (at_version run_id version) values rows,
)

-- `session.add` with its flush, at which the primary key refuses a run that is there.
unfoldable pub add : AgentRuntimeCheckpoint → Exec (List AgentRuntimeCheckpoint) (Unit {0})
add row rows =
    if any (of_run row.run_id) rows then (raised integrity_error, rows) else (ok tt, row ∷ rows)

unfoldable pub delete : ℕ → Exec (List AgentRuntimeCheckpoint) Bool
delete run_id rows =
    (ok (count_where (of_run run_id) rows == 1), filter (λ row. not (of_run run_id row)) rows)

unfoldable pub delete_expired : ℕ → Exec (List AgentRuntimeCheckpoint) ℕ
delete_expired now rows = (
  ok (count_where (λ row. leb row.expires_at now) rows),
  filter (λ row. not (leb row.expires_at now)) rows,
)

abbrev pub or_invalid : {A : Type 0} → Option A → Result A
or_invalid none = raised invalid_runtime_checkpoint
or_invalid (some a) = ok a

abbrev pub next_version : {U C P R : Type 0} → RuntimeCheckpoint U C P R → RuntimeCheckpoint U C P R
next_version s = record s { checkpoint_version = s.checkpoint_version + 1 }

module _ {U C P R : Type 0} (x : Codec U C P R) where
  unfoldable pub encode : ℕ → RuntimeCheckpoint U C P R → String × String
  unfolding payload_of
  encode random s = let raw = x.dumps (payload_of x s) in (x.encrypt random raw, x.sha256 raw)

  abbrev pub checked : String → String → Result String
  checked expected raw =
      if str_eq (x.sha256 raw) expected then ok raw else raised invalid_runtime_checkpoint

  unfoldable pub decode : String → String → Result (RuntimeCheckpoint U C P R)
  unfolding state_of
  decode ciphertext expected = or_invalid (x.decrypt ciphertext) |> λ raw.
      checked expected raw |> λ same.
      or_invalid (x.loads same) |> λ payload. or_invalid (state_of x payload)

  abbrev pub load_row :
      ℕ → Option AgentRuntimeCheckpoint → Result (Option (RuntimeCheckpoint U C P R))
  load_row now none = ok none
  load_row now (some row) =
      if leb row.expires_at now
      then raised invalid_runtime_checkpoint
      else (decode row.encrypted_state row.state_sha256 |> λ s.
          ok (some (record s { checkpoint_version = row.state_version })))

  unfoldable pub load :
      ℕ → ℕ → Exec (List AgentRuntimeCheckpoint) (Option (RuntimeCheckpoint U C P R))
  unfolding get
  load now run_id rows = (load_row now (get run_id rows), rows)

  -- The row that `save` writes for a state.
  abbrev pub saved_row : ℕ → ℕ → ℕ → ℕ → RuntimeCheckpoint U C P R → AgentRuntimeCheckpoint
  saved_row ttl random now run_id s =
      let (ciphertext, digest) = encode random s in
      record {
        run_id = run_id;
        state_version = s.checkpoint_version + 1;
        encrypted_state = ciphertext;
        state_sha256 = digest;
        expires_at = now + ttl;
        updated_at = now;
      }

  abbrev pub save_first :
      AgentRuntimeCheckpoint
      → RuntimeCheckpoint U C P R
      → Exec (List AgentRuntimeCheckpoint) (RuntimeCheckpoint U C P R)
  save_first row s = do add row; pure (next_version s)

  abbrev pub save_again :
      AgentRuntimeCheckpoint
      → RuntimeCheckpoint U C P R
      → Exec (List AgentRuntimeCheckpoint) (RuntimeCheckpoint U C P R)
  save_again row s = do
    updated ← update_if_version row.run_id s.checkpoint_version (λ old. row)
    raise_if (not updated) invalid_runtime_checkpoint
    pure (next_version s)

  -- The state with its new version, which the code writes into the object.
  unfoldable pub save :
      ℕ
      → ℕ
      → ℕ
      → ℕ
      → RuntimeCheckpoint U C P R
      → Exec (List AgentRuntimeCheckpoint) (RuntimeCheckpoint U C P R)
  unfolding encode add update_if_version
  save ttl random now run_id s =
      let row = saved_row ttl random now run_id s in
      if s.checkpoint_version == 0 then save_first row s else save_again row s
