-- ===== src/Api/ChangeType.antt =====
-- The enum `ChangeType` of packages/api/src/gen/kdelta/v1/changes_pb.ts.
use kdelta.Prelude.{ℕ, List, [], ◌∷◌}
use kdelta.Text.{Text, js}

abbrev pub unspecified : ℕ
unspecified = 0

abbrev pub added : ℕ
added = 1

abbrev pub changed : ℕ
changed = 2

abbrev pub fixed : ℕ
fixed = 3

abbrev pub security : ℕ
security = 4

abbrev pub deprecated : ℕ
deprecated = 5

abbrev pub removed : ℕ
removed = 6

abbrev pub breaking : ℕ
breaking = 7

abbrev pub default_changed : ℕ
default_changed = 8

abbrev pub migration_required : ℕ
migration_required = 9

abbrev pub other : ℕ
other = 15

-- the names, by number
unfoldable pub names : List (ℕ × Text)
unfolding js
names =
    (unspecified, js "UNSPECIFIED")
    ∷ (added, js "ADDED")
    ∷ (changed, js "CHANGED")
    ∷ (fixed, js "FIXED")
    ∷ (security, js "SECURITY")
    ∷ (deprecated, js "DEPRECATED")
    ∷ (removed, js "REMOVED")
    ∷ (breaking, js "BREAKING")
    ∷ (default_changed, js "DEFAULT_CHANGED")
    ∷ (migration_required, js "MIGRATION_REQUIRED")
    ∷ (other, js "OTHER")
    ∷ []
