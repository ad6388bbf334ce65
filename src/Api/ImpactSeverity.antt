-- ===== src/Api/ImpactSeverity.antt =====
-- The enum `ImpactSeverity` of packages/api/src/gen/kdelta/v1/impact_pb.ts.
use kdelta.Prelude.{ℕ, List, [], ◌∷◌}
use kdelta.Text.{Text, js}

abbrev pub unspecified : ℕ
unspecified = 0

abbrev pub none : ℕ
none = 1

abbrev pub low : ℕ
low = 2

abbrev pub medium : ℕ
medium = 3

abbrev pub high : ℕ
high = 4

abbrev pub critical : ℕ
critical = 5

-- the names, by number
unfoldable pub names : List (ℕ × Text)
unfolding js
names =
    (unspecified, js "UNSPECIFIED")
    ∷ (none, js "NONE")
    ∷ (low, js "LOW")
    ∷ (medium, js "MEDIUM")
    ∷ (high, js "HIGH")
    ∷ (critical, js "CRITICAL")
    ∷ []
