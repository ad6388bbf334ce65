-- ===== src/Api/VersionRangeEventKind.antt =====
-- The enum `VersionRangeEventKind` of packages/api/src/gen/kdelta/v1/version_pb.ts.
use kdelta.Prelude.{ℕ, List, [], ◌∷◌}
use kdelta.Text.{Text, js}

abbrev pub unspecified : ℕ
unspecified = 0

abbrev pub introduced : ℕ
introduced = 1

abbrev pub fixed : ℕ
fixed = 2

abbrev pub last_affected : ℕ
last_affected = 3

-- the names, by number
unfoldable pub names : List (ℕ × Text)
unfolding js
names =
    (unspecified, js "UNSPECIFIED")
    ∷ (introduced, js "INTRODUCED")
    ∷ (fixed, js "FIXED")
    ∷ (last_affected, js "LAST_AFFECTED")
    ∷ []
