-- ===== src/Api/VersionKind.antt =====
-- The enum `VersionKind` of packages/api/src/gen/kdelta/v1/version_pb.ts.
use kdelta.Prelude.{ℕ, List, [], ◌∷◌}
use kdelta.Text.{Text, js}

abbrev pub unspecified : ℕ
unspecified = 0

abbrev pub chart : ℕ
chart = 1

abbrev pub app : ℕ
app = 2

abbrev pub container_image : ℕ
container_image = 3

abbrev pub git_revision : ℕ
git_revision = 4

abbrev pub other : ℕ
other = 15

-- the names, by number
unfoldable pub names : List (ℕ × Text)
unfolding js
names =
    (unspecified, js "UNSPECIFIED")
    ∷ (chart, js "CHART")
    ∷ (app, js "APP")
    ∷ (container_image, js "CONTAINER_IMAGE")
    ∷ (git_revision, js "GIT_REVISION")
    ∷ (other, js "OTHER")
    ∷ []
