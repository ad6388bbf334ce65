-- ===== src/Api/LinkKind.antt =====
-- The enum `LinkKind` of packages/api/src/gen/kdelta/v1/common_pb.ts.
use kdelta.Prelude.{ℕ, List, [], ◌∷◌}
use kdelta.Text.{Text, js}

abbrev pub unspecified : ℕ
unspecified = 0

abbrev pub source : ℕ
source = 1

abbrev pub homepage : ℕ
homepage = 2

abbrev pub releases : ℕ
releases = 3

abbrev pub changelog : ℕ
changelog = 4

abbrev pub documentation : ℕ
documentation = 5

abbrev pub migration_guide : ℕ
migration_guide = 6

abbrev pub reference : ℕ
reference = 7

abbrev pub other : ℕ
other = 15

-- the names, by number
unfoldable pub names : List (ℕ × Text)
unfolding js
names =
    (unspecified, js "UNSPECIFIED")
    ∷ (source, js "SOURCE")
    ∷ (homepage, js "HOMEPAGE")
    ∷ (releases, js "RELEASES")
    ∷ (changelog, js "CHANGELOG")
    ∷ (documentation, js "DOCUMENTATION")
    ∷ (migration_guide, js "MIGRATION_GUIDE")
    ∷ (reference, js "REFERENCE")
    ∷ (other, js "OTHER")
    ∷ []
