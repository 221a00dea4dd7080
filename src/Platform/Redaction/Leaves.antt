-- ===== src/Platform/Redaction/Leaves.antt =====
-- What the redaction of a snapshot hides and what it keeps, in terms of the leaves of the snapshot.
use campus_pilots.Base.{List, [], ◌∷◌, ◌≡◌, refl, inl, inr, All, Bool-cases, if◌then◌else◌}
use mathlib.Core.List.{◌++◌}
use campus_pilots.Platform.Redaction.{
  Scalar, text, Json, scalar, array, object, Items, nil, cons, Entries, end, entry, Strings,
  is_sensitive_key, redact_json, redact_items, redact_entries,
}

-- All leaves of a value, from left to right.
unfoldable mutual
  pub leaves : Json → List Scalar
  leaves (scalar x) = x ∷ []
  leaves (array xs) = leaves_items xs
  leaves (object es) = leaves_entries es

  leaves_items : Items → List Scalar
  leaves_items nil = []
  leaves_items (cons x xs) = leaves x ++ leaves_items xs

  leaves_entries : Entries → List Scalar
  leaves_entries end = []
  leaves_entries (entry key x es) = leaves x ++ leaves_entries es

module _ (s : Strings) where
  -- The leaves below a sensitive key.
  unfoldable mutual
    secret_json : Json → List Scalar
    secret_json (scalar x) = []
    secret_json (array xs) = secret_items xs
    secret_json (object es) = secrets es

    secret_items : Items → List Scalar
    secret_items nil = []
    secret_items (cons x xs) = secret_json x ++ secret_items xs

    pub secrets : Entries → List Scalar
    secrets end = []
    secrets (entry key x es) =
        let rest = secrets es in
        let below = secret_json x in (if is_sensitive_key s key then leaves x else below) ++ rest

  -- The leaves below no sensitive key.
  unfoldable mutual
    open_json : Json → List Scalar
    open_json (scalar x) = x ∷ []
    open_json (array xs) = open_items xs
    open_json (object es) = open_leaves es

    open_items : Items → List Scalar
    open_items nil = []
    open_items (cons x xs) = open_json x ++ open_items xs

    pub open_leaves : Entries → List Scalar
    open_leaves end = []
    open_leaves (entry key x es) =
        let rest = open_leaves es in
        let below = open_json x in (if is_sensitive_key s key then [] else below) ++ rest

  abbrev IsHidden : Scalar → Type 0
  IsHidden x = x ≡ text "***"

  All-++ : (xs ys : List Scalar) → All IsHidden xs → All IsHidden ys → All IsHidden (xs ++ ys)
  All-++ [] ys h k = k
  All-++ (x ∷ xs) ys (h, hs) k = (h, All-++ xs ys hs k)

  mutual
    unfolding redact_json secret_json leaves

    secret_json-IsHidden : (x : Json) → All IsHidden (secret_json (redact_json s x))
    secret_json-IsHidden (scalar x) = tt
    secret_json-IsHidden (array xs) = secret_items-IsHidden xs
    secret_json-IsHidden (object es) = entries-IsHidden es

    secret_items-IsHidden : (xs : Items) → All IsHidden (secret_items (redact_items s xs))
    secret_items-IsHidden nil = tt
    secret_items-IsHidden (cons x xs) =
        All-++ (secret_json (redact_json s x)) (secret_items (redact_items s xs))
          (secret_json-IsHidden x) (secret_items-IsHidden xs)

    entries-IsHidden : (es : Entries) → All IsHidden (secrets (redact_entries s es))
    entries-IsHidden end = tt
    entries-IsHidden (entry key x es) =
        let rest = entries-IsHidden es in
        let below = secret_json-IsHidden x in
        elim (Bool-cases (is_sensitive_key s key)) [
          | inl yes_it ↦ rw yes_it (refl, rest)
          | inr no_it ↦
              rw no_it
                (All-++ (secret_json (redact_json s x)) (secrets (redact_entries s es)) below rest)
        ]

  mutual
    unfolding redact_json open_json

    open_json-same : (x : Json) → open_json (redact_json s x) ≡ open_json x
    open_json-same (scalar x) = refl
    open_json-same (array xs) = open_items-same xs
    open_json-same (object es) = entries-same es

    open_items-same : (xs : Items) → open_items (redact_items s xs) ≡ open_items xs
    open_items-same nil = refl
    open_items-same (cons x xs) = rw (open_json-same x, open_items-same xs) refl

    entries-same : (es : Entries) → open_leaves (redact_entries s es) ≡ open_leaves es
    entries-same end = refl
    entries-same (entry key x es) =
        let rest = entries-same es in
        let below = open_json-same x in
        elim (Bool-cases (is_sensitive_key s key)) [
          | inl yes_it ↦ rw (yes_it, rest) refl
          | inr no_it ↦ rw (no_it, below, rest) refl
        ]

-- In a redacted snapshot every leaf below a sensitive key, at any depth of objects and lists, is
-- "***", and the leaves below no sensitive key are those of the snapshot, in their order.
pub redact_entries-leaves :
    (s : Strings) (es : Entries)
    → All (λ (x : Scalar). x ≡ text "***") (secrets s (redact_entries s es))
      × (open_leaves s (redact_entries s es) ≡ open_leaves s es)
redact_entries-leaves s es = (entries-IsHidden s es, entries-same s es)
