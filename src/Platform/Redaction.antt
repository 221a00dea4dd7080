-- ===== src/Platform/Redaction.antt =====
-- `redact` (backend/app/modules/platform/audit.py), which hides secrets in the snapshots of the audit
-- log. Python's `lower`, `replace` and `in` on strings are parameters.
pub mod Leaves
mod Tests
use campus_pilots.Base.{ℕ, String, Bool, Option, List, [], ◌∷◌, any, if◌then◌else◌}
use mathlib.Core.Option.{map}

-- What is neither a mapping nor a list. `opaque` is any other value, such as a number.
pub data Scalar : Type 0 where
  null : Scalar
  boolean : Bool → Scalar
  text : String → Scalar
  opaque : ℕ → Scalar

mutual
  pub data Json : Type 0 where
    scalar : Scalar → Json
    array : Items → Json
    object : Entries → Json

  pub data Items : Type 0 where
    nil : Items
    cons : Json → Items → Items

  pub data Entries : Type 0 where
    end : Entries
    entry : String → Json → Entries → Entries

-- `s.lower()`, `s.replace(part, "")` and `part in s`, the part first.
pub record Strings : Type 0 where
  pub lower : String → String
  pub without : String → String → String
  pub is_in : String → String → Bool

abbrev pub redacted_value : Json
redacted_value = scalar (text "***")

abbrev pub sensitive_key_parts : List String
sensitive_key_parts = "password" ∷ "token" ∷ "authorization" ∷ "cookie" ∷ "apikey" ∷ "secret" ∷ []

unfoldable pub is_sensitive_key : Strings → String → Bool
is_sensitive_key s key =
    let normalized_key = s.without "-" (s.without "_" (s.lower key)) in
    any (λ part. s.is_in part normalized_key) sensitive_key_parts

module _ (s : Strings) where
  -- `_redact_value` below its test of the key, and `_redact_list_item`, which do the same on a value.
  unfoldable mutual
    pub redact_json : Json → Json
    redact_json (scalar x) = scalar x
    redact_json (array xs) = array (redact_items xs)
    redact_json (object es) = object (redact_entries es)

    pub redact_items : Items → Items
    redact_items nil = nil
    redact_items (cons x xs) = cons (redact_json x) (redact_items xs)

    -- `_redact_value` of every entry: its test of the key and what is below.
    pub redact_entries : Entries → Entries
    redact_entries end = end
    redact_entries (entry key x es) =
        let rest = redact_entries es in
        let shown = redact_json x in
        entry key (if is_sensitive_key s key then redacted_value else shown) rest

  -- `None` stays `None`.
  abbrev pub redact : Option Entries → Option Entries
  redact = map redact_entries
