-- ===== src/Api/VersioningScheme.antt =====
-- The enum `VersioningScheme` of packages/api/src/gen/kdelta/v1/version_pb.ts.
use kdelta.Prelude.{ℕ, List, [], ◌∷◌}
use kdelta.Text.{Text, js}

abbrev pub unspecified : ℕ
unspecified = 0

abbrev pub semver : ℕ
semver = 1

abbrev pub loose_semver : ℕ
loose_semver = 2

abbrev pub tag : ℕ
tag = 3

abbrev pub git : ℕ
git = 4

abbrev pub other : ℕ
other = 15

-- the names, by number
unfoldable pub names : List (ℕ × Text)
unfolding js
names =
    (unspecified, js "UNSPECIFIED")
    ∷ (semver, js "SEMVER")
    ∷ (loose_semver, js "LOOSE_SEMVER")
    ∷ (tag, js "TAG")
    ∷ (git, js "GIT")
    ∷ (other, js "OTHER")
    ∷ []
