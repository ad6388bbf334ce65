-- ===== src/Api/ActionKind.antt =====
-- The enum `ActionKind` of packages/api/src/gen/kdelta/v1/impact_pb.ts.
use kdelta.Prelude.{ℕ, List, [], ◌∷◌}
use kdelta.Text.{Text, js}

abbrev pub unspecified : ℕ
unspecified = 0

abbrev pub config_change : ℕ
config_change = 1

abbrev pub manual_step : ℕ
manual_step = 2

abbrev pub verification : ℕ
verification = 3

abbrev pub monitoring : ℕ
monitoring = 4

abbrev pub related_upgrade : ℕ
related_upgrade = 5

abbrev pub other : ℕ
other = 15

-- the names, by number
unfoldable pub names : List (ℕ × Text)
unfolding js
names =
    (unspecified, js "UNSPECIFIED")
    ∷ (config_change, js "CONFIG_CHANGE")
    ∷ (manual_step, js "MANUAL_STEP")
    ∷ (verification, js "VERIFICATION")
    ∷ (monitoring, js "MONITORING")
    ∷ (related_upgrade, js "RELATED_UPGRADE")
    ∷ (other, js "OTHER")
    ∷ []
