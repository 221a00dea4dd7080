-- ===== src/Agents/Checkpoint/Tests.antt =====
-- A state that is saved, loaded and saved from the loaded version.
use campus_pilots.Base.{
  ℕ, zero, suc, String, true, false, Option, none, some, List, [], ◌∷◌, ◌≡◌, refl, arith, str_eq,
  ap,
}
use Prim.Native.String.compare
use Prim.Native.String.{[] as empty_text, ◌∷◌ as char}
use campus_pilots.Errors.{invalid_runtime_checkpoint}
use campus_pilots.Exec.{ok, raised}
use campus_pilots.Agents.Checkpoint.{
  AgentRuntimeCheckpoint, next_version, save, load, add, encode, update_if_version,
}
use campus_pilots.Agents.Checkpoint.Payload.{
  RuntimeCheckpoint, Codec, Value, text, item, sorted, payload_of,
}
use campus_pilots.Agents.Checkpoint.RoundTrip.{Reads, load-save, save-stale}

abbrev Checkpoint : Type 0
Checkpoint = RuntimeCheckpoint ℕ ℕ ℕ ℕ

abbrev state_of_objective : String → ℕ → Checkpoint
state_of_objective objective version = record {
  user = 7;
  objective = objective;
  context = 0;
  plan = 3;
  next_task = 1;
  pending_step_id = some 2;
  pending_tool_call_id = none;
  pending_request = some 5;
  pending_agent_code = some "repair";
  terminal = false;
  had_failures = true;
  checkpoint_version = version;
}

abbrev state : ℕ → Checkpoint
state version = state_of_objective "repair the lamp" version

-- An identifier as so many strokes, one more than its number.
abbrev strokes : ℕ → String
strokes zero = "1"
strokes (suc n) = char "1" (strokes n)

abbrev count : String → ℕ
count empty_text = 0
count (char c s) = suc (count s)

abbrev unstrokes : String → Option ℕ
unstrokes empty_text = none
unstrokes (char c s) = some (count s)

abbrev objective_of : Option (Value ℕ) → String
objective_of (some (text t)) = t
objective_of _ = ""

-- A codec whose JSON text is the objective, and which reads no text.
abbrev deaf : Codec ℕ ℕ ℕ ℕ
deaf = record {
  dumps = λ d. objective_of (item "objective" d);
  loads = λ raw. none;
  encrypt = λ random raw. raw;
  decrypt = λ raw. some raw;
  sha256 = λ raw. raw;
  uuid_text = strokes;
  parse_uuid = unstrokes;
  truthy = λ c. true;
  dump_user = λ n. n;
  validate_user = λ c. some c;
  dump_plan = λ n. n;
  validate_plan = λ c. some c;
  dump_request = λ n. n;
  validate_request = λ c. some c;
}

-- It reads a text as the dictionary of the state with that objective.
abbrev codec : Codec ℕ ℕ ℕ ℕ
codec = record deaf { loads = λ raw. some (sorted (payload_of deaf (state_of_objective raw 0))) }

count-strokes : (n : ℕ) → count (strokes n) ≡ suc n
count-strokes zero = refl
count-strokes (suc n) = ap suc (count-strokes n)

strokes_read : (n : ℕ) → unstrokes (strokes n) ≡ some n
strokes_read zero = refl
strokes_read (suc n) = ap some (count-strokes n)

strokes_full : (n : ℕ) → str_eq (strokes n) "" ≡ false
strokes_full zero = refl
strokes_full (suc n) = rw (compare.cons-nil "1" (strokes n)) refl

codec-Reads : Reads codec
codec-Reads = record {
  decrypts = λ random raw. refl;
  uuids = strokes_read;
  uuid_full = strokes_full;
  users = λ u. refl;
  plans = λ p. refl;
  requests = λ r. refl;
  request_full = λ r. refl;
}

abbrev one_row : List AgentRuntimeCheckpoint
one_row =
    record {
      run_id = 4;
      state_version = 2;
      encrypted_state = "old";
      state_sha256 = "old";
      expires_at = 50;
      updated_at = 5;
    }
    ∷ []

is_saved : (save codec 100 0 10 4 (state 2) one_row).0 ≡ ok (next_version (state 2))
unfolding save add encode update_if_version payload_of
is_saved = refl

reads_back :
    codec.loads (codec.dumps (payload_of codec (state 2)))
    ≡ some (sorted (payload_of codec (state 2)))
unfolding payload_of
reads_back = refl

load-save_example :
    (load codec 60 4 (save codec 100 0 10 4 (state 2) one_row).1).0 ≡ ok (some (state 3))
load-save_example =
    load-save codec codec-Reads (state 2) reads_back 100 0 10 60 4 one_row (omega arith)
      (omega arith) is_saved

save-stale_example :
    (save codec 100 1 20 4 (state 2) (save codec 100 0 10 4 (state 2) one_row).1).0
    ≡ raised invalid_runtime_checkpoint
save-stale_example = save-stale codec 100 0 1 10 20 4 (state 2) (state 2) one_row refl is_saved
