-- ===== src/Platform/Redaction/Tests.antt =====
-- A snapshot with secrets in objects and lists.
use campus_pilots.Base.{none, [], ◌∷◌, ◌≡◌, refl, All, str_eq}
use campus_pilots.Platform.Redaction.{
  Scalar, text, opaque, Json, scalar, array, object, nil, cons, Entries, end, entry, Strings,
  is_sensitive_key, redact_entries, redact,
}
use campus_pilots.Platform.Redaction.Leaves.{leaves, secrets, open_leaves, redact_entries-leaves}

abbrev strings : Strings
strings = record { lower = λ s. s; without = λ part s. s; is_in = str_eq }

-- The token is an object, and the password stands in a list of objects.
abbrev login : Json
login = object (entry "password" (scalar (text "1234")) (entry "user" (scalar (text "ada")) end))

abbrev snapshot : Entries
snapshot = entry "id" (scalar (opaque 7)) (
    entry "token" (object (entry "jti" (scalar (text "abc")) end))
      (entry "logins" (array (cons login (cons (scalar (text "x")) nil))) end))

redacted_run :
    (open_leaves strings (redact_entries strings snapshot) ≡ opaque 7 ∷ text "ada" ∷ text "x" ∷ [])
    × (secrets strings (redact_entries strings snapshot) ≡ text "***" ∷ text "***" ∷ [])
    × (secrets strings snapshot ≡ text "abc" ∷ text "1234" ∷ [])
    × (redact strings none ≡ none)
unfolding open_leaves secrets redact_entries is_sensitive_key leaves
redacted_run = (refl, refl, refl, refl)

redact_entries-leaves_example :
    All (λ (x : Scalar). x ≡ text "***") (secrets strings (redact_entries strings snapshot))
    × (open_leaves strings (redact_entries strings snapshot) ≡ open_leaves strings snapshot)
redact_entries-leaves_example = redact_entries-leaves strings snapshot
