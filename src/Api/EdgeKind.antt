-- ===== src/Api/EdgeKind.antt =====
-- The enum `EdgeKind` of packages/api/src/gen/kdelta/v1/resource_pb.ts.
use kdelta.Prelude.{ℕ, List, [], ◌∷◌}
use kdelta.Text.{Text, js}

abbrev pub unspecified : ℕ
unspecified = 0

abbrev pub owns : ℕ
owns = 1

abbrev pub depends_on : ℕ
depends_on = 2

abbrev pub part_of : ℕ
part_of = 3

-- the names, by number
unfoldable pub names : List (ℕ × Text)
unfolding js
names =
    (unspecified, js "UNSPECIFIED")
    ∷ (owns, js "OWNS")
    ∷ (depends_on, js "DEPENDS_ON")
    ∷ (part_of, js "PART_OF")
    ∷ []
