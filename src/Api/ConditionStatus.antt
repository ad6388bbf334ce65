-- ===== src/Api/ConditionStatus.antt =====
-- The enum `ConditionStatus` of packages/api/src/gen/kdelta/v1/resource_pb.ts.
use kdelta.Prelude.{ℕ, List, [], ◌∷◌}
use kdelta.Text.{Text, js}

abbrev pub unspecified : ℕ
unspecified = 0

abbrev pub is_true : ℕ
is_true = 1

abbrev pub is_false : ℕ
is_false = 2

abbrev pub unknown : ℕ
unknown = 3

-- the names, by number
unfoldable pub names : List (ℕ × Text)
unfolding js
names =
    (unspecified, js "UNSPECIFIED")
    ∷ (is_true, js "TRUE")
    ∷ (is_false, js "FALSE")
    ∷ (unknown, js "UNKNOWN")
    ∷ []
