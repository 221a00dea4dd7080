-- ===== src/Platform/Moderation/Scan/Verdict.antt =====
-- What the verdict of a scan says about the rules and the text.
use campus_pilots.Base.{Bool, List, map, ◌==◌}
use campus_pilots.Platform.Moderation.{ScanAction, ScanHit, Texts, action_priority}

abbrev pub same_action : ScanAction → ScanAction → Bool
same_action a b = action_priority a == action_priority b

module _ (x : Texts) where
  abbrev actions_of : List ScanHit → List ScanAction
  actions_of hits = map (λ h. h.action) hits
