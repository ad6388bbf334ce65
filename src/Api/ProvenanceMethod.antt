-- ===== src/Api/ProvenanceMethod.antt =====
-- The enum `ProvenanceMethod` of packages/api/src/gen/kdelta/v1/common_pb.ts.
use kdelta.Prelude.{ℕ, List, [], ◌∷◌}
use kdelta.Text.{Text, js}

abbrev pub unspecified : ℕ
unspecified = 0

abbrev pub observed : ℕ
observed = 1

abbrev pub fetched : ℕ
fetched = 2

abbrev pub ai_extracted : ℕ
ai_extracted = 3

abbrev pub ai_generated : ℕ
ai_generated = 4

abbrev pub dataset : ℕ
dataset = 5

abbrev pub user_provided : ℕ
user_provided = 6

-- the names, by number
unfoldable pub names : List (ℕ × Text)
unfolding js
names =
    (unspecified, js "UNSPECIFIED")
    ∷ (observed, js "OBSERVED")
    ∷ (fetched, js "FETCHED")
    ∷ (ai_extracted, js "AI_EXTRACTED")
    ∷ (ai_generated, js "AI_GENERATED")
    ∷ (dataset, js "DATASET")
    ∷ (user_provided, js "USER_PROVIDED")
    ∷ []
