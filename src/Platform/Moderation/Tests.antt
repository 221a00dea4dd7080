-- ===== src/Platform/Moderation/Tests.antt =====
-- A scan with concrete rules.
use campus_pilots.Base.{String, Bool, true, false, none, some, List, [], ◌∷◌, str_eq}
use campus_pilots.Platform.Moderation.{
  SensitiveWord, exact, mask, block, ScanResult, Texts, risk_by_action,
}
use campus_pilots.Platform.Moderation.Scan.{hit_of}

-- Texts are compared as they are, and a pattern is replaced where it is the whole text.
abbrev texts : Texts
texts = record {
  casefold = λ s. s;
  is_in = str_eq;
  compiles = λ p. true;
  search = str_eq;
  sub = λ p r s. some (if_equal (str_eq p s) r s);
  escape = λ s. s;
  uuid_text = λ n. "uuid";
}
  where
    if_equal : Bool → String → String → String
    if_equal true r s = r
    if_equal false r s = s

abbrev rude : SensitiveWord
rude = record {
  id = 1;
  word = "rude";
  match_type = exact;
  action = mask;
  replacement = none;
  scope = "all";
  enabled = true;
  created_at = 1;
}

abbrev words : List SensitiveWord
words = rude ∷ record rude { id = 2; enabled = false; action = block } ∷ []

abbrev result : ScanResult
result = record {
  action = mask;
  risk_level = risk_by_action mask;
  hits = hit_of rude ∷ [];
  policy_version = "m4-sensitive-v1";
  sanitized_text = "***";
}
